-- ===== src/Sampler/Matcher/Wildcards.antt =====
-- What a pattern of a sampling rule matches, and that `wild_card_match` decides it.
use opentelemetry_python_con.Common.{
  ℕ, ◌≡◌, ◌≢◌, ◌↔◌, refl, true, false, Option, none, some, [], ◌∷◌, Text, text, arith, ◌==◌,
  Bool-cases, inl, inr, text_eq, text_eq_sound, text_eq_complete, sym, ◌∙◌, ◌⊎◌,
}
use opentelemetry_python_con.Sampler.Matcher.{
  AttributeValue, str, other, star, question, newline, is_wildcard, has_wildcard, any_suffix,
  match_text, wild_card_match,
}
use opentelemetry_python_con.Sampler.Matcher.Regex.{glob, fullmatch-to_regex_pattern}

-- `Matches p t`: a `*` stands for any run of characters without a newline, a `?` for one character
-- that is not a newline, any other character for itself.
pub data Matches : Text → Text → Type 0 where
  done : Matches [] []
  itself :
      {c d : ℕ} {p t : Text} → is_wildcard c ≡ false → c ≡ d → Matches p t → Matches (c ∷ p) (d ∷ t)
  any_one :
      {c d : ℕ} {p t : Text} → c ≡ question → d ≢ newline → Matches p t → Matches (c ∷ p) (d ∷ t)
  stop : {c : ℕ} {p t : Text} → c ≡ star → Matches p t → Matches (c ∷ p) t
  more :
      {c d : ℕ} {p t : Text} → c ≡ star → d ≢ newline → Matches (c ∷ p) t → Matches (c ∷ p) (d ∷ t)

any_suffix_sound :
    {c : ℕ} (p t : Text)
    → c ≡ star
    → ((u : Text) → glob p u ≡ true → Matches p u)
    → any_suffix (glob p) t ≡ true
    → Matches (c ∷ p) t
unfolding any_suffix
any_suffix_sound p [] e rec h = stop e (rec [] h)
any_suffix_sound p (d ∷ t) e rec h = elim (Bool-cases (glob p (d ∷ t))) [
  | inl now ↦ stop e (rec (d ∷ t) now)
  | inr later ↦ more e (ground arith) (any_suffix_sound p t e rec (ground arith))
]

glob_sound : (p t : Text) → glob p t ≡ true → Matches p t
unfolding glob is_wildcard
glob_sound [] [] h = done
glob_sound [] (d ∷ t) h = cc
glob_sound (c ∷ p) [] h = stop (ground arith) (glob_sound p [] (ground arith))
glob_sound (c ∷ p) (d ∷ t) h = elim (Bool-cases (c == star)) [
  | inl s ↦ any_suffix_sound p (d ∷ t) (ground arith) (glob_sound p) (ground arith)
  | inr s ↦ elim (Bool-cases (c == question)) [
    | inl q ↦ any_one (ground arith) (ground arith) (glob_sound p t (ground arith))
    | inr q ↦ itself (ground arith) (ground arith) (glob_sound p t (ground arith))
  ]
]

glob_complete : {p t : Text} → Matches p t → glob p t ≡ true
unfolding glob any_suffix is_wildcard
glob_complete done = refl
glob_complete (itself w e m) = ground (arith, glob_complete m)
glob_complete (any_one e n m) = ground (arith, glob_complete m)
glob_complete (stop {c} {p} {t = []} e m) = ground (arith, glob_complete m)
glob_complete (stop {c} {p} {t = d ∷ t} e m) = ground (arith, glob_complete m)
glob_complete (more {p = p} {t = []} e n m) = ground (arith, glob_complete m)
glob_complete (more {p = p} {t = d ∷ t} e n m) = ground (arith, glob_complete m)

-- A pattern with no wildcard matches itself only.
glob-plain : (p t : Text) → has_wildcard p ≡ false → glob p t ≡ text_eq p t
unfolding glob has_wildcard is_wildcard text_eq
glob-plain [] [] h = refl
glob-plain [] (d ∷ t) h = refl
glob-plain (c ∷ p) [] h = ground arith
glob-plain (c ∷ p) (d ∷ t) h = ground (arith, glob-plain p t)

match_text-glob : (t p : Text) → match_text t p ≡ glob p t
unfolding match_text
match_text-glob [] [] = unfold glob in refl
match_text-glob (d ∷ t) [] = unfold glob in refl
match_text-glob t (c ∷ p) = elim (Bool-cases (has_wildcard (c ∷ p))) [
  | inl w ↦ rw w (fullmatch-to_regex_pattern (c ∷ p) t)
  | inr w ↦ rw w (sym (glob-plain (c ∷ p) t w))
]

match_text_sound : (t p : Text) → match_text t p ≡ true → Matches p t
match_text_sound t p h = glob_sound p t (sym (match_text-glob t p) ∙ h)

match_text_complete : (t p : Text) → Matches p t → match_text t p ≡ true
match_text_complete t p m = match_text-glob t p ∙ glob_complete m

-- The value is a `str` that the pattern matches.
abbrev pub IsMatch : Text → Option AttributeValue → Type 0
IsMatch p v = (t : Text) × (v ≡ some (str t)) × Matches p t

module _ (p : Text) where
  sound_no_star :
      (v : Option AttributeValue)
      → text_eq p (text "*") ≡ false
      → wild_card_match v p ≡ true
      → IsMatch p v
  unfolding wild_card_match
  sound_no_star none s h = ground arith
  sound_no_star (some (other n)) s h = ground arith
  sound_no_star (some (str t)) s h = (t, refl, match_text_sound t p (ground arith))

  complete_text : (v : Option AttributeValue) → IsMatch p v → wild_card_match v p ≡ true
  unfolding wild_card_match
  complete_text v (t, e, m) = ground (arith, match_text_complete t p m)

  complete_star : (v : Option AttributeValue) → p ≡ text "*" → wild_card_match v p ≡ true
  unfolding wild_card_match
  complete_star v e = ground (arith, text_eq_complete p (text "*"))

-- `wild_card_match` holds exactly if the pattern is a lone `*`, whatever the value, or the value is
-- a `str` that the pattern matches; it does not hold of a value that is missing or of another type.
pub wild_card_match_iff :
    (v : Option AttributeValue) (p : Text)
    → (wild_card_match v p ≡ true) ↔ ((p ≡ text "*") ⊎ IsMatch p v)
wild_card_match_iff v p = (sound, complete)
  where
    sound : wild_card_match v p ≡ true → (p ≡ text "*") ⊎ IsMatch p v
    sound h = elim (Bool-cases (text_eq p (text "*"))) [
      | inl s ↦ inl (text_eq_sound p (text "*") s)
      | inr s ↦ inr (sound_no_star p v s h)
    ]

    complete : (p ≡ text "*") ⊎ IsMatch p v → wild_card_match v p ≡ true
    complete (inl e) = complete_star p v e
    complete (inr m) = complete_text p v m
