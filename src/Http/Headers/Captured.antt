-- ===== src/Http/Headers/Captured.antt =====
-- Which headers are captured, and with which values.
use opentelemetry_python_con.Common.{
  ◌≡◌, refl, Bool, true, false, List, [], ◌∷◌, All, In, here, there, map, Text, text, text_eq,
  text_eq_sound, inl, inr, Bool-cases, if◌then◌else◌, Dict, get, put, get-put_self, get-put_other,
  some, ap, ◌∙◌, sym,
}
use mathlib.Core.Path.{subst}
use opentelemetry_python_con.Http.Headers.{
  HeaderValue, one, several, Regexes, sanitize_header_value, sanitize_values, header_loop,
  sanitize_header_values, get_custom_header_attributes,
}

All-put :
    {V : Type 0} (P : Text × V → Type 0) (key : Text) (value : V) (d : Dict V)
    → All P d
    → P (key, value)
    → All P (put key value d)
unfolding put
All-put P key value [] all p = (p, tt)
All-put P key value ((k, v) ∷ d) (q, all) p = elim (Bool-cases (text_eq k key)) [
  | inl e ↦ rw (e, put) (subst (λ t. P (t, value)) (sym (text_eq_sound k key e)) p, all)
  | inr e ↦ rw (e, put) (q, All-put P key value d all p)
]

if-All :
    {A : Type 0} (P : A → Type 0) (b : Bool) (xs ys : List A)
    → (b ≡ true → All P xs)
    → All P ys
    → All P (if b then xs else ys)
if-All P true xs ys f all = f refl
if-All P false xs ys f all = all

-- there is an entry for the key
abbrev pub IsGiven : {V : Type 0} → Dict V → Text → Type 0
IsGiven {V} d key = (v : V) × (get d key ≡ some v)

if-IsGiven :
    {V : Type 0} (b : Bool) (d d' : Dict V) (key : Text)
    → IsGiven d key
    → IsGiven d' key
    → IsGiven (if b then d else d') key
if-IsGiven true d d' key given given' = given
if-IsGiven false d d' key given given' = given'

put-IsGiven :
    {V : Type 0} (k key : Text) (v : V) (d : Dict V) → IsGiven d key → IsGiven (put k v d) key
put-IsGiven k key v d (w, h) = elim (Bool-cases (text_eq k key)) [
  | inl e ↦ (v, ap (get (put k v d)) (sym (text_eq_sound k key e)) ∙ get-put_self k v d)
  | inr e ↦ (w, get-put_other k key v d e ∙ h)
]

All-In : {A : Type 0} (xs ys : List A) → ((x : A) → In x xs → In x ys) → All (λ x. In x ys) xs
All-In [] ys f = tt
All-In (x ∷ xs) ys f = (f x here, All-In xs ys (λ y i. f y (there i)))

abbrev pub is_sensitive : Regexes → List Text → Text → Bool
is_sensitive regexes [] name = false
is_sensitive regexes (field ∷ fields) name = regexes.search (field ∷ fields) name

abbrev pub values_of : HeaderValue → List Text
values_of (one value) = value ∷ []
values_of (several values) = values

-- The attribute of one of the headers whose name matches: with all its values redacted if the header is
-- sensitive, and else as they are.
pub data IsCaptured (regexes : Regexes) (headers : List (Text × HeaderValue))
    (captured sensitive : List Text) (normalize : Text → Text) : Text × List Text → Type 0 where
  redacted :
      {name : Text} {value : HeaderValue}
      → In (name, value) headers
      → regexes.fullmatch captured name ≡ true
      → is_sensitive regexes sensitive name ≡ true
      → IsCaptured regexes headers captured sensitive normalize
          (normalize (regexes.lower name), map (λ v. text "[REDACTED]") (values_of value))
  kept :
      {name : Text} {value : HeaderValue}
      → In (name, value) headers
      → regexes.fullmatch captured name ≡ true
      → is_sensitive regexes sensitive name ≡ false
      → IsCaptured regexes headers captured sensitive normalize
          (normalize (regexes.lower name), values_of value)

module _ (regexes : Regexes) where
  sanitize_header_value_lem :
      (sensitive : List Text) (name value : Text)
      → sanitize_header_value regexes sensitive name value
        ≡ (if is_sensitive regexes sensitive name then text "[REDACTED]" else value)
  unfolding sanitize_header_value
  sanitize_header_value_lem [] name value = refl
  sanitize_header_value_lem (field ∷ fields) name value = refl

  map-sanitize_header_value :
      (sensitive : List Text) (name : Text) (values : List Text)
      → map (sanitize_header_value regexes sensitive name) values ≡ (
          if is_sensitive regexes sensitive name
          then map (λ v. text "[REDACTED]") values
          else values)
  map-sanitize_header_value sensitive name [] =
      elim (Bool-cases (is_sensitive regexes sensitive name)) [
        | inl e ↦ rw e refl
        | inr e ↦ rw e refl
      ]
  map-sanitize_header_value sensitive name (v ∷ vs) =
      let first = sanitize_header_value_lem sensitive name v in
      let rest = map-sanitize_header_value sensitive name vs in
      elim (Bool-cases (is_sensitive regexes sensitive name)) [
        | inl e ↦ rw (first, rest, e) refl
        | inr e ↦ rw (first, rest, e) refl
      ]

  sanitize_values_lem :
      (sensitive : List Text) (name : Text) (value : HeaderValue)
      → sanitize_values regexes sensitive name value ≡ (
          if is_sensitive regexes sensitive name
          then map (λ v. text "[REDACTED]") (values_of value)
          else values_of value)
  unfolding sanitize_values
  sanitize_values_lem sensitive name (one value) =
      map-sanitize_header_value sensitive name (value ∷ [])
  sanitize_values_lem sensitive name (several values) =
      map-sanitize_header_value sensitive name values

  module _ (all_headers : List (Text × HeaderValue)) (captured sensitive : List Text)
      (normalize : Text → Text) where
    abbrev Is : Text × List Text → Type 0
    Is = IsCaptured regexes all_headers captured sensitive normalize

    sanitize_values-IsCaptured :
        (name : Text) (value : HeaderValue)
        → In (name, value) all_headers
        → regexes.fullmatch captured name ≡ true
        → Is (normalize (regexes.lower name), sanitize_values regexes sensitive name value)
    sanitize_values-IsCaptured name value i m =
        subst (λ vs. Is (normalize (regexes.lower name), vs))
          (sym (sanitize_values_lem sensitive name value))
          (elim (Bool-cases (is_sensitive regexes sensitive name)) [
            | inl e ↦ rw e (redacted i m e)
            | inr e ↦ rw e (kept i m e)
          ])

    header_loop-IsCaptured :
        (headers : List (Text × HeaderValue)) (values : Dict (List Text))
        → All (λ h. In h all_headers) headers
        → All Is values
        → All Is (header_loop regexes sensitive captured normalize headers values)
    unfolding header_loop
    header_loop-IsCaptured [] values within all = all
    header_loop-IsCaptured ((name, value) ∷ headers) values (i, within) all =
        header_loop-IsCaptured headers _ within (
          if-All Is (regexes.fullmatch captured name) _ _
            (λ m.
              All-put Is (normalize (regexes.lower name))
                (sanitize_values regexes sensitive name value) values all
                (sanitize_values-IsCaptured name value i m))
            all)

    header_loop-IsGiven :
        (headers : List (Text × HeaderValue)) (values : Dict (List Text)) (key : Text)
        → IsGiven values key
        → IsGiven (header_loop regexes sensitive captured normalize headers values) key
    unfolding header_loop
    header_loop-IsGiven [] values key given = given
    header_loop-IsGiven ((name, value) ∷ headers) values key given =
        header_loop-IsGiven headers _ key (
          if-IsGiven (regexes.fullmatch captured name) _ _ key
            (put-IsGiven (normalize (regexes.lower name)) key _ values given) given)

    header_loop-In :
        (headers : List (Text × HeaderValue)) (values : Dict (List Text)) {name : Text}
        {value : HeaderValue}
        → In (name, value) headers
        → regexes.fullmatch captured name ≡ true
        → IsGiven
            (header_loop regexes sensitive captured normalize headers values)
            (normalize (regexes.lower name))
    unfolding header_loop
    header_loop-In [] values i m = elim i [ ]
    header_loop-In ((name, value) ∷ headers) values here m =
        header_loop-IsGiven headers _ (normalize (regexes.lower name))
          (rw m (_, get-put_self (normalize (regexes.lower name)) _ values))
    header_loop-In (h ∷ headers) values (there i) m = header_loop-In headers _ i m

  -- Each header whose name matches one of the captured expressions has an attribute; and each attribute is that
  -- of such a header. Its values are all redacted if the name matches one of the sensitive expressions, and are
  -- those of the header if not.
  pub get_custom_header_attributes-IsCaptured :
      (headers : List (Text × HeaderValue)) (regex : Text) (captured sensitive : List Text)
      (normalize : Text → Text) (name : Text) (value : HeaderValue)
      → In (name, value) headers
      → regexes.fullmatch (regex ∷ captured) name ≡ true
      → IsGiven
          (get_custom_header_attributes regexes headers (regex ∷ captured) sensitive normalize)
          (normalize (regexes.lower name))
        × All
            (IsCaptured regexes headers (regex ∷ captured) sensitive normalize)
            (get_custom_header_attributes regexes headers (regex ∷ captured) sensitive normalize)
  unfolding get_custom_header_attributes sanitize_header_values
  get_custom_header_attributes-IsCaptured [] regex captured sensitive normalize name value i m =
      elim i [ ]
  get_custom_header_attributes-IsCaptured (h ∷ hs) regex captured sensitive normalize name value i
        m =
      (
        header_loop-In (h ∷ hs) (regex ∷ captured) sensitive normalize (h ∷ hs) [] i m,
        header_loop-IsCaptured (h ∷ hs) (regex ∷ captured) sensitive normalize (h ∷ hs) []
            (All-In (h ∷ hs) (h ∷ hs) (λ x j. j)) tt,
      )
