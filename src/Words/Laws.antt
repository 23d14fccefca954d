-- ===== src/Words/Laws.antt =====
-- Splitting a text that was joined, and stripping a text without white space.
use opentelemetry_python_con.Common.{ℕ, ◌≡◌, refl, false, [], ◌∷◌, ◌++◌, All, Text, ◌==◌, arith}
use opentelemetry_python_con.Words.{
  is_space, extend, split, strip_left, keep_left, strip_right, strip,
}

-- The separator does not occur.
abbrev pub Without : ℕ → Text → Type 0
Without sep t = All (λ c. (c == sep) ≡ false) t

pub split-single : (sep : ℕ) (t : Text) → Without sep t → split sep t ≡ t ∷ []
unfolding split extend
split-single sep [] h = refl
split-single sep (c ∷ t) h = rw (h.0, split-single sep t h.1) refl

pub split-append :
    (sep : ℕ) (t u : Text) → Without sep t → split sep (t ++ sep ∷ u) ≡ t ∷ split sep u
unfolding split extend
split-append sep [] u h = ground arith
split-append sep (c ∷ t) u h = rw (h.0, split-append sep t u h.1) refl

abbrev pub NoSpace : Text → Type 0
NoSpace t = All (λ c. is_space c ≡ false) t

strip_left-same : (t : Text) → NoSpace t → strip_left t ≡ t
unfolding strip_left
strip_left-same [] h = refl
strip_left-same (c ∷ t) h = rw (h.0) refl

strip_right-same : (t : Text) → NoSpace t → strip_right t ≡ t
unfolding strip_right keep_left
strip_right-same [] h = refl
strip_right-same (c ∷ []) h = rw (h.0) refl
strip_right-same (c ∷ d ∷ t) h = rw (strip_right-same (d ∷ t) h.1) refl

pub strip-same : (t : Text) → NoSpace t → strip t ≡ t
unfolding strip
strip-same t h = rw (strip_left-same t h) (strip_right-same t h)
