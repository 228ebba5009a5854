-- ===== src/Domain.antt =====
-- src/aedifex/domain: the vocabulary of the pipeline, and what it allows.
pub mod Documents
pub mod Workflow
pub mod Evidence
pub mod Files
