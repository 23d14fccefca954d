-- ===== src/Common/Dicts.antt =====
-- A Python dict with `str` keys, in the order of insertion.
use Prim.Native.Nat.{◌+◌, ◌≤◌}
use mathlib.Core.Path.{◌≡◌, refl, ap, ◌∙◌}
use mathlib.Core.Bool.{false}
use mathlib.Core.Option.{Option, none, some}
use mathlib.Core.Logic.{inl, inr}
use mathlib.Core.List.{List, [], ◌∷◌}
use native.Mathlib.Omega.{arith}
use opentelemetry_python_con.Common.Tests.{if◌then◌else◌, Bool-cases}
use opentelemetry_python_con.Common.Lists.{length}
use opentelemetry_python_con.Common.Texts.{Text, text_eq, text_eq_sound, text_eq_refl}

abbrev pub Dict : Type 0 → Type 0
Dict V = List (Text × V)

-- `d.get(key)`
unfoldable pub get : {V : Type 0} → Dict V → Text → Option V
get [] key = none
get ((k, v) ∷ d) key = if text_eq k key then some v else get d key

-- `d[key] = value`
unfoldable pub put : {V : Type 0} → Text → V → Dict V → Dict V
put key value [] = (key, value) ∷ []
put key value ((k, v) ∷ rest) =
    let rest' = put key value rest in if text_eq k key then (k, value) ∷ rest else (k, v) ∷ rest'

pub length-put :
    {V : Type 0} (key : Text) (value : V) (d : Dict V) → length (put key value d) ≤ length d + 1
unfolding put
length-put key value [] = omega arith
length-put key value ((k, v) ∷ rest) = elim (Bool-cases (text_eq k key)) [
  | inl e ↦ rw e (omega arith)
  | inr e ↦ rw e (omega (arith, length-put key value rest))
]

-- A key that is in the dict gets no new place.
pub length-put_old :
    {V : Type 0} (key : Text) (value : V) (d : Dict V) {old : V}
    → get d key ≡ some old
    → length (put key value d) ≡ length d
unfolding put get
length-put_old key value [] h = absurd (ground arith)
length-put_old key value ((k, v) ∷ rest) {old} h = elim (Bool-cases (text_eq k key)) [
  | inl e ↦ rw e refl
  | inr e ↦ rw e (omega (arith, length-put_old key value rest {old = old} (ground arith)))
]

pub get-put_other :
    {V : Type 0} (key other : Text) (value : V) (d : Dict V)
    → text_eq key other ≡ false
    → get (put key value d) other ≡ get d other
unfolding put get
get-put_other key other value [] h = rw h refl
get-put_other key other value ((k, v) ∷ rest) h = elim (Bool-cases (text_eq k key)) [
  | inl e ↦
      let same : text_eq k other ≡ false = ap (λ t. text_eq t other) (text_eq_sound k key e) ∙ h in
      rw (e, same, get) refl
  | inr e ↦
      rw (e, get)
        (ap (λ o. if text_eq k other then some v else o) (get-put_other key other value rest h))
]

pub get-put_self :
    {V : Type 0} (key : Text) (value : V) (d : Dict V) → get (put key value d) key ≡ some value
unfolding put get
get-put_self key value [] = rw (text_eq_refl key) refl
get-put_self key value ((k, v) ∷ rest) = elim (Bool-cases (text_eq k key)) [
  | inl e ↦ rw e (rw e refl)
  | inr e ↦ rw e (rw e (get-put_self key value rest))
]
