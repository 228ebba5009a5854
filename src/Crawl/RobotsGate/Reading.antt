-- ===== src/Crawl/RobotsGate/Reading.antt =====
-- How much of a response is read.
use aedifex.Prelude.{
  ℕ, zero, suc, ◌+◌, ◌≤◌, ◌≡◌, refl, sym, ap, ◌∙◌, inl, inr, List, [], ◌∷◌, ◌++◌, arith, Bool-cases,
  leb, leb→le, length, take, length-append,
}
use aedifex.Crawl.RobotsGate.{read_chunks, read_bytes, max_robots_bytes}

abbrev pub concat : List (List ℕ) → List ℕ
concat [] = []
concat (chunk ∷ chunks) = chunk ++ concat chunks

take-append : (n : ℕ) (xs ys : List ℕ) → n ≤ length xs → take n (xs ++ ys) ≡ take n xs
take-append zero xs ys h = refl
take-append (suc n) [] ys h = absurd (omega arith)
take-append (suc n) (x ∷ xs) ys h = ap (λ (t : List ℕ). x ∷ t) (take-append n xs ys (omega arith))

append_assoc : (xs ys zs : List ℕ) → (xs ++ ys) ++ zs ≡ xs ++ (ys ++ zs)
append_assoc [] ys zs = refl
append_assoc (x ∷ xs) ys zs = ap (λ (t : List ℕ). x ∷ t) (append_assoc xs ys zs)

append_nil : (xs : List ℕ) → xs ++ [] ≡ xs
append_nil [] = refl
append_nil (x ∷ xs) = ap (λ (t : List ℕ). x ∷ t) (append_nil xs)

take-read_chunks :
    (n total : ℕ) (read : List ℕ) (chunks : List (List ℕ))
    → total ≡ length read
    → take n (read_chunks n read total chunks) ≡ take n (read ++ concat chunks)
unfolding read_chunks
take-read_chunks n total read [] h = ap (λ (t : List ℕ). take n t) (sym (append_nil read))
take-read_chunks n total read (chunk ∷ chunks) h =
    let long = length-append read chunk in
    let whole = append_assoc read chunk (concat chunks) in
    elim (Bool-cases (leb n (total + length chunk))) [
      | inl enough ↦
          let le = leb→le n (total + length chunk) enough in
          rw enough (
            sym (take-append n (read ++ chunk) (concat chunks) (omega (arith, long, le, h)))
            ∙ ap (λ (t : List ℕ). take n t) whole)
      | inr more ↦ rw more (
          take-read_chunks n (total + length chunk) (read ++ chunk) chunks (omega (arith, long, h))
          ∙ ap (λ (t : List ℕ). take n t) whole)
    ]

-- The loop over the chunks, which stops early, gives the same as cutting the whole body at the
-- limit, however the body is split into chunks.
pub read_bytes-concat :
    (chunks : List (List ℕ)) → read_bytes chunks ≡ take max_robots_bytes (concat chunks)
unfolding read_bytes
read_bytes-concat chunks = take-read_chunks max_robots_bytes 0 [] chunks refl
