-- ===== src/Analysis.antt =====
-- From extracted facts to findings: src/aedifex/extraction/selection.py,
-- src/aedifex/calculation/engine.py and src/aedifex/verification/reconciliation.py.
pub mod Facts
pub mod Selection
pub mod Calculation
pub mod Reconciliation
pub mod WorkItems
pub mod Provisions
