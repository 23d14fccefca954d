-- ===== src/Sampler/Matcher/Regex.antt =====
-- The regular expression that `to_regex_pattern` writes matches what the pattern says, one character
-- of the pattern after the other.
use mathlib.Core.Path.{fun_ext}
use opentelemetry_python_con.Common.{
  ℕ, ◌≡◌, refl, ap, ◌∙◌, Bool, true, false, not, ◌&&◌, Option, none, some, List, [], ◌∷◌, ◌++◌,
  Text, arith, or_default, ◌==◌, if◌then◌else◌, Bool-cases, inl, inr,
}
use opentelemetry_python_con.Sampler.Matcher.{
  star, question, newline, Part, escaped, is_wildcard, to_regex_pattern, wildcard_part,
  strip_literal, any_suffix, fullmatch,
}
use opentelemetry_python_con.Sampler.Matcher.Loop.{
  parts, begun, parts-wildcard, parts-token, to_regex_pattern-parts,
}

-- Matching with no regular expression in between.
unfoldable pub glob : Text → Text → Bool
glob [] [] = true
glob [] (d ∷ t) = false
glob (c ∷ p) [] = (c == star) && glob p []
glob (c ∷ p) (d ∷ t) =
    if c == star
    then any_suffix (glob p) (d ∷ t)
    else ((if c == question then not (d == newline) else c == d) && glob p t)

-- a literal, then `k` of the text that is left
after : Text → (Text → Bool) → Text → Bool
after [] k t = k t
after (c ∷ lit) k [] = false
after (c ∷ lit) k (d ∷ t) = (c == d) && after lit k t

fullmatch-escaped :
    (lit : Text) (ps : List Part) (t : Text)
    → fullmatch (escaped lit ∷ ps) t ≡ after lit (fullmatch ps) t
unfolding fullmatch strip_literal after
fullmatch-escaped [] ps t = refl
fullmatch-escaped (c ∷ lit) ps [] = refl
fullmatch-escaped (c ∷ lit) ps (d ∷ t) = ground (arith, fullmatch-escaped lit ps t)

fullmatch-begun :
    (lit : Option Text) (ps : List Part) (t : Text)
    → fullmatch (begun lit ++ ps) t ≡ after (or_default lit []) (fullmatch ps) t
unfolding after
fullmatch-begun none ps t = refl
fullmatch-begun (some l) ps t = fullmatch-escaped l ps t

after-snoc :
    (lit : Text) (c : ℕ) (k : Text → Bool) (t : Text)
    → after (lit ++ c ∷ []) k t ≡ after lit (after (c ∷ []) k) t
unfolding after
after-snoc [] c k t = refl
after-snoc (b ∷ lit) c k [] = refl
after-snoc (b ∷ lit) c k (d ∷ t) = ap (◌&&◌ (b == d)) (after-snoc lit c k t)

fullmatch-nil : fullmatch [] ≡ glob []
unfolding fullmatch glob
fullmatch-nil = fun_ext (elim [ [] ↦ refl | d ∷ t ↦ refl ])

fullmatch-wildcard :
    (c : ℕ) (ps : List Part) (p : Text)
    → is_wildcard c ≡ true
    → fullmatch ps ≡ glob p
    → (t : Text) → fullmatch (wildcard_part c ∷ ps) t ≡ glob (c ∷ p) t
unfolding fullmatch glob wildcard_part is_wildcard any_suffix
fullmatch-wildcard c ps p w e [] = ground (arith, ap (λ (f : Text → Bool). f []) e)
fullmatch-wildcard c ps p w e (d ∷ t) = ground (
  arith,
  ap (λ (f : Text → Bool). f (d ∷ t)) e,
  ap (λ (f : Text → Bool). f t) e,
  ap (λ (f : Text → Bool). any_suffix f t) e,
)

after-token :
    (c : ℕ) (p : Text)
    → is_wildcard c ≡ false
    → (t : Text) → after (c ∷ []) (glob p) t ≡ glob (c ∷ p) t
unfolding after glob is_wildcard
after-token c p w [] = ground arith
after-token c p w (d ∷ t) = ground arith

fullmatch-parts :
    (lit : Option Text) (p t : Text)
    → fullmatch (parts lit p) t ≡ after (or_default lit []) (glob p) t
unfolding parts
fullmatch-parts none [] t = unfold after in ap (λ (f : Text → Bool). f t) fullmatch-nil
fullmatch-parts (some l) [] t = fullmatch-escaped l [] t ∙ ap (λ k. after l k t) fullmatch-nil
fullmatch-parts lit (c ∷ p) t = elim (Bool-cases (is_wildcard c)) [
  | inl w ↦
      ap (λ ps. fullmatch ps t) (parts-wildcard [] [] 0 c p lit w)
      ∙ fullmatch-begun lit _ t
      ∙ ap (λ k. after (or_default lit []) k t)
          (fun_ext (
            fullmatch-wildcard c (parts none p) p w
              (fun_ext (fullmatch-parts none p) ∙ (unfold after in refl))))
  | inr w ↦
      ap (λ ps. fullmatch ps t) (parts-token [] [] 0 c p lit w)
      ∙ fullmatch-parts (some (or_default lit [] ++ c ∷ [])) p t
      ∙ after-snoc (or_default lit []) c (glob p) t
      ∙ ap (λ k. after (or_default lit []) k t) (fun_ext (after-token c p w))
]

-- A text matches the regular expression written for a pattern exactly if it matches the pattern.
pub fullmatch-to_regex_pattern : (p t : Text) → fullmatch (to_regex_pattern p) t ≡ glob p t
fullmatch-to_regex_pattern p t =
    unfold after in (rw (to_regex_pattern-parts p) (fullmatch-parts none p t))
