-- ===== src/Agents/Content/Merged.antt =====
-- What was captured of a message is not lost when more is gathered.
use opentelemetry_python_con.Common.{
  ℕ, zero, suc, ◌+◌, ◌≡◌, refl, Bool, true, false, not, ◌&&◌, ◌||◌, List, [], ◌∷◌, ◌++◌, ltb,
  length, arith, inl, inr, Bool-cases, if◌then◌else◌,
}
use opentelemetry_python_con.Agents.Content.{
  Message, is_placeholder_message, placeholder_at, set_at, any_real, has_message, merge_one,
  merge_loop, merge_kept, kept_messages, merge_content_sequence,
}

-- whether there is a message at an index that is no placeholder
abbrev pub real_at : ℕ → List Message → Bool
real_at i [] = false
real_at zero (m ∷ ms) = not (is_placeholder_message m)
real_at (suc i) (m ∷ ms) = real_at i ms

real_at-append : (i : ℕ) (ms ns : List Message) → real_at i ms ≡ true → real_at i (ms ++ ns) ≡ true
real_at-append i [] ns h = absurd (ground arith)
real_at-append zero (m ∷ ms) ns h = h
real_at-append (suc i) (m ∷ ms) ns h = real_at-append i ms ns h

-- A placeholder is set only where there is one.
real_at-set_at :
    (i j : ℕ) (new : Message) (ms : List Message)
    → (is_placeholder_message new && not (placeholder_at j ms)) ≡ false
    → real_at i ms ≡ true
    → real_at i (set_at j new ms) ≡ true
unfolding set_at placeholder_at
real_at-set_at i j new [] g h = absurd (ground arith)
real_at-set_at zero zero new (m ∷ ms) g h = ground arith
real_at-set_at zero (suc j) new (m ∷ ms) g h = h
real_at-set_at (suc i) zero new (m ∷ ms) g h = h
real_at-set_at (suc i) (suc j) new (m ∷ ms) g h = real_at-set_at i j new ms g h

if-real :
    (i : ℕ) (b : Bool) (xs ys : List Message)
    → real_at i xs ≡ true
    → (b ≡ false → real_at i ys ≡ true)
    → real_at i (if b then xs else ys) ≡ true
if-real i true xs ys h g = h
if-real i false xs ys h g = g refl

real_at-merge_one :
    (i idx : ℕ) (new : Message) (result : List Message)
    → real_at i result ≡ true
    → real_at i (merge_one true idx new result) ≡ true
unfolding merge_one
real_at-merge_one i idx new result h = elim (Bool-cases (ltb idx (length result))) [
  | inl e ↦
      rw (e, merge_one)
        (if-real i (is_placeholder_message new && not (placeholder_at idx result)) _ _ h
          (λ g. real_at-set_at i idx new result g h))
  | inr e ↦
      rw (e, merge_one)
        (if-real i (is_placeholder_message new && (any_real result || has_message new result)) _ _ h
          (λ g. real_at-append i result (new ∷ []) h))
]

real_at-merge_loop :
    (i idx : ℕ) (news result : List Message)
    → real_at i result ≡ true
    → real_at i (merge_loop true idx news result) ≡ true
unfolding merge_loop
real_at-merge_loop i idx [] result h = h
real_at-merge_loop i idx (new ∷ news) result h =
    real_at-merge_loop i (idx + 1) news (merge_one true idx new result)
      (real_at-merge_one i idx new result h)

-- Where messages are captured, a message of an agent that has its text keeps its place with a text when more
-- messages are gathered: no placeholder replaces it.
pub merge_content_sequence-real :
    (i : ℕ) (existing incoming : List Message)
    → real_at i existing ≡ true
    → real_at i (merge_content_sequence true existing incoming) ≡ true
unfolding merge_content_sequence merge_kept
merge_content_sequence-real i existing [] h = h
merge_content_sequence-real i [] (m ∷ ms) h = absurd (ground arith)
merge_content_sequence-real i (e ∷ es) (m ∷ ms) h =
    real_at-merge_loop i 0 (kept_messages true (m ∷ ms)) (e ∷ es) h
