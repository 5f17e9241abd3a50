-- ===== src/Fs.antt =====
-- include/kotatsu/fs and src/fs: the file system, of which the paths as texts are modelled.
pub mod Path
