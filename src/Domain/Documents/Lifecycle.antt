-- ===== src/Domain/Documents/Lifecycle.antt =====
-- What the transition table allows over a whole life of a document.
use aedifex.Prelude.{◌≡◌, refl, ap, ◌∙◌, ◌⊎◌, ◌↔◌, true, false, List, [], ◌∷◌, arith}
use aedifex.Domain.Documents.{
  DocumentState, discovered, downloading, downloaded, validated, processing, processed, failed,
  quarantined, is_terminal, allowed, assert_transition_allowed,
}

-- The states that a document passes through, each by a call that `assert_transition_allowed` admits.
pub data Run : DocumentState → List DocumentState → DocumentState → Type 0 where
  stop : {s : DocumentState} → Run s [] s
  move :
      {s t u : DocumentState} {path : List DocumentState}
      → assert_transition_allowed s t ≡ allowed
      → Run t path u
      → Run s (t ∷ path) u

abbrev pub Avoids : DocumentState → List DocumentState → Type 0
Avoids s [] = Unit
Avoids s (t ∷ path) = (s ≡ t → ⊥) × Avoids s path

-- The way from a state to `processed` on which nothing more goes wrong.
abbrev pub straight : DocumentState → List DocumentState
straight discovered = downloading ∷ downloaded ∷ validated ∷ processing ∷ processed ∷ []
straight downloading = downloaded ∷ validated ∷ processing ∷ processed ∷ []
straight downloaded = validated ∷ processing ∷ processed ∷ []
straight validated = processing ∷ processed ∷ []
straight processing = processed ∷ []
straight failed = processing ∷ processed ∷ []
straight processed = []
straight quarantined = []

is_terminal_iff :
    (s : DocumentState) → (is_terminal s ≡ true) ↔ ((s ≡ processed) ⊎ (s ≡ quarantined))
unfolding is_terminal
is_terminal_iff s = ground arith

refused_of_terminal :
    (s t : DocumentState) → is_terminal s ≡ true → assert_transition_allowed s t ≡ allowed → ⊥
unfolding is_terminal assert_transition_allowed
refused_of_terminal s t h a = ground arith

Run_of_terminal :
    {s t : DocumentState} {path : List DocumentState}
    → Run s path t
    → is_terminal s ≡ true
    → (path ≡ []) × (t ≡ s)
Run_of_terminal stop h = (refl, refl)
Run_of_terminal {s} (move {t = t} a r) h = absurd (refused_of_terminal s t h a)

-- A document leaves no state that `is_terminal` calls terminal: a sequence of admitted transitions
-- from one is empty, and the state is `processed` or `quarantined`.
pub Run-terminal :
    (s t : DocumentState) (path : List DocumentState)
    → is_terminal s ≡ true
    → Run s path t
    → (path ≡ []) × (t ≡ s) × ((s ≡ processed) ⊎ (s ≡ quarantined))
Run-terminal s t path h r = let (p, q) = Run_of_terminal r h in (p, q, (is_terminal_iff s).0 h)

only_way :
    (s t : DocumentState)
    → assert_transition_allowed s t ≡ allowed
    → (failed ≡ s → ⊥)
    → (failed ≡ t → ⊥)
    → (quarantined ≡ t → ⊥)
    → (t ∷ straight t ≡ straight s) × (quarantined ≡ s → ⊥)
unfolding assert_transition_allowed
only_way s t a h k q = ground arith

straight_only :
    {s u : DocumentState} {path : List DocumentState}
    → Run s path u
    → u ≡ processed
    → (failed ≡ s → ⊥)
    → Avoids failed path
    → (path ≡ straight s) × (quarantined ≡ s → ⊥)
straight_only stop e h k = ground arith
straight_only {s} (move {t = t} a r) e h (k, ks) =
    let (p, q) = straight_only r e k ks in
    let w = only_way s t a h k q in (ap (λ (l : List DocumentState). t ∷ l) p ∙ w.0, w.1)

-- A document that is processed without having failed on the way was downloaded, then validated,
-- then processed: the whole run is the one straight way there.
processed_without_failure :
    (path : List DocumentState)
    → Run discovered path processed
    → Avoids failed path
    → path ≡ downloading ∷ downloaded ∷ validated ∷ processing ∷ processed ∷ []
processed_without_failure path r k = (straight_only r refl (λ e. cc) k).0

straight-Run : (s : DocumentState) → is_terminal s ≡ false → Run s (straight s) processed
unfolding is_terminal assert_transition_allowed
straight-Run discovered h = move refl (move refl (move refl (move refl (move refl stop))))
straight-Run downloading h = move refl (move refl (move refl (move refl stop)))
straight-Run downloaded h = move refl (move refl (move refl stop))
straight-Run validated h = move refl (move refl stop)
straight-Run processing h = move refl stop
straight-Run failed h = move refl (move refl stop)
straight-Run processed h = cc
straight-Run quarantined h = cc

fails_next :
    (s : DocumentState)
    → is_terminal s ≡ false
    → (s ≡ failed) ⊎ (assert_transition_allowed s failed ≡ allowed)
unfolding is_terminal assert_transition_allowed
fails_next s h = ground arith

-- No document is stuck: from every state that is not terminal `processed` can be reached, and a
-- document that has not failed can fail in one transition.
pub not_stuck :
    (s : DocumentState)
    → is_terminal s ≡ false
    → Run s (straight s) processed × ((s ≡ failed) ⊎ (assert_transition_allowed s failed ≡ allowed))
not_stuck s h = (straight-Run s h, fails_next s h)
