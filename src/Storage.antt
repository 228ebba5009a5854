-- ===== src/Storage.antt =====
-- src/aedifex/infrastructure/storage: where the bytes of a document are kept.
pub mod Keys
