-- ===== src/Tests/Domain.antt =====
-- Tests of the modules under Domain.
use aedifex.Prelude.{◌≡◌, refl, ◌⊎◌, true, false, List, [], ◌∷◌}
use aedifex.Domain.Documents.{
  DocumentState, discovered, downloading, downloaded, validated, processing, processed, failed,
  is_terminal, assert_transition_allowed, allowed,
}
use aedifex.Domain.Documents.Lifecycle.{Run, stop, move, Avoids, straight, not_stuck}
use aedifex.Domain.Workflow.{fail, pass}
use aedifex.Domain.Workflow.Projection.{Finding}

abbrev clean_life : List DocumentState
clean_life = downloading ∷ downloaded ∷ validated ∷ processing ∷ processed ∷ []

clean_life-Run : Run discovered clean_life processed
unfolding assert_transition_allowed
clean_life-Run = move refl (move refl (move refl (move refl (move refl stop))))

clean_life-Avoids : Avoids failed clean_life
clean_life-Avoids = (λ e. cc, (λ e. cc, (λ e. cc, (λ e. cc, (λ e. cc, tt)))))

not_stuck_example :
    Run validated (straight validated) processed
    × ((validated ≡ failed) ⊎ (assert_transition_allowed validated failed ≡ allowed))
unfolding is_terminal
not_stuck_example = not_stuck validated refl

abbrev open_findings : List Finding
open_findings = (pass, false) ∷ (fail, true) ∷ (fail, false) ∷ []
