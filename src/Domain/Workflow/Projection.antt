-- ===== src/Domain/Workflow/Projection.antt =====
-- When the projected status changes, and what review does to it.
use aedifex.Prelude.{Bool}
use aedifex.Domain.Workflow.{Outcome, needs_human_review}

-- A finding of a document: its outcome, and whether a current review speaks for it.
abbrev pub Finding : Type 0
Finding = Outcome × Bool

abbrev pub waits : Finding → Bool
waits (outcome, reviewed) = needs_human_review outcome reviewed
