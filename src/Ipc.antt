-- ===== src/Ipc.antt =====
-- include/kotatsu/ipc and src/ipc: the LSP base protocol's framing, and a language server's URIs.
pub mod Framing
pub mod Lsp
