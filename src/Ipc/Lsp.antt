-- ===== src/Ipc/Lsp.antt =====
-- src/ipc/lsp: what a language server does beside its protocol.
pub mod Percent
pub mod Uri
pub mod Text
pub mod Position
