-- ===== src/Labeler/Bounded.antt =====
-- A labeler keeps to its limits.
use opentelemetry_python_con.Common.{
  ℕ, ◌≤◌, ◌≡◌, true, false, not, ◌&&◌, List, [], ◌∷◌, All, length, length-take, Text, text_eq, ltb,
  leb, arith, Bool-cases, Option-cases, inl, inr, Dict, get, put, length-put, length-put_old,
}
use opentelemetry_python_con.Labeler.{
  Value, str, scalar, other, Labeler, init, is_primitive, truncate, has, add, add_attributes, clear,
}

-- A primitive value, which is no text longer than `n`.
abbrev pub IsShort : ℕ → Value → Type 0
IsShort n (str t) = length t ≤ n
IsShort n (scalar k) = Unit
IsShort n (other k) = ⊥

pub record IsBounded (l : Labeler) : Type 0 where
  pub few : length l.attributes ≤ l.max_custom_attrs
  pub short : All (λ e. IsShort l.max_attr_value_length e.1) l.attributes

truncate-IsShort : (n : ℕ) (v : Value) → is_primitive v ≡ true → IsShort n (truncate n v)
unfolding truncate is_primitive
truncate-IsShort n (str t) h = elim (Bool-cases (ltb n (length t))) [
  | inl e ↦ rw e (omega (arith, length-take n t))
  | inr e ↦ rw e (ground arith)
]
truncate-IsShort n (scalar k) h = tt
truncate-IsShort n (other k) h = absurd (ground arith)

put-IsShort :
    (n : ℕ) (key : Text) (v : Value) (d : Dict Value)
    → IsShort n v
    → All (λ e. IsShort n e.1) d
    → All (λ e. IsShort n e.1) (put key v d)
unfolding put
put-IsShort n key v [] s h = (s, tt)
put-IsShort n key v ((k, w) ∷ rest) s h = elim (Bool-cases (text_eq k key)) [
  | inl e ↦ rw e (s, h.1)
  | inr e ↦ rw e (h.0, put-IsShort n key v rest s h.1)
]

-- There is room for the key: it has a place, or there are fewer attributes than the limit.
room :
    (m : ℕ) (key : Text) (v : Value) (d : Dict Value)
    → (leb m (length d) && not (has key d)) ≡ false
    → length d ≤ m
    → length (put key v d) ≤ m
unfolding has
room m key v d h k = elim (Option-cases (get d key)) [
  | inl e ↦ ground (arith, length-put key v d)
  | inr (old, e) ↦ omega (arith, length-put_old key v d e, k)
]

pub add-IsBounded :
    (key : Text) (value : Value) (l : Labeler) → IsBounded l → IsBounded (add key value l)
unfolding add
add-IsBounded key value l h = elim (Bool-cases (not (is_primitive value))) [
  | inl e ↦ rw e h
  | inr e ↦
      elim (Bool-cases
        (leb l.max_custom_attrs (length l.attributes) && not (has key l.attributes))) [
          | inl f ↦ rw (e, f) h
          | inr f ↦
              rw (e, f)
                (record {
                  few =
                      room l.max_custom_attrs key (truncate l.max_attr_value_length value)
                        l.attributes f h.few;
                  short =
                      put-IsShort l.max_attr_value_length key
                        (truncate l.max_attr_value_length value) l.attributes
                        (truncate-IsShort l.max_attr_value_length value (ground arith)) h.short;
                })
        ]
]

add_attributes-IsBounded :
    (attributes : Dict Value) (l : Labeler) → IsBounded l → IsBounded (add_attributes attributes l)
unfolding add_attributes
add_attributes-IsBounded [] l h = h
add_attributes-IsBounded ((key, value) ∷ attributes) l h =
    add_attributes-IsBounded attributes (add key value l) (add-IsBounded key value l h)

-- What is done with a labeler.
pub data Use : Type 0 where
  add_one : Text → Value → Use
  add_many : Dict Value → Use
  clear_all : Use

unfoldable pub use_all : List Use → Labeler → Labeler
use_all [] l = l
use_all (add_one key value ∷ uses) l = use_all uses (add key value l)
use_all (add_many attributes ∷ uses) l = use_all uses (add_attributes attributes l)
use_all (clear_all ∷ uses) l = use_all uses (clear l)

use_all-IsBounded : (uses : List Use) (l : Labeler) → IsBounded l → IsBounded (use_all uses l)
unfolding use_all clear
use_all-IsBounded [] l h = h
use_all-IsBounded (add_one key value ∷ uses) l h =
    use_all-IsBounded uses (add key value l) (add-IsBounded key value l h)
use_all-IsBounded (add_many attributes ∷ uses) l h =
    use_all-IsBounded uses (add_attributes attributes l) (add_attributes-IsBounded attributes l h)
use_all-IsBounded (clear_all ∷ uses) l h =
    use_all-IsBounded uses (record l { attributes = [] }) (record { few = omega arith; short = tt })

-- After any sequence of additions and clearings a new labeler has no more attributes than its limit,
-- their values are primitive, and no text among them is longer than its limit.
pub use_all-init-IsBounded :
    (uses : List Use) (max_custom_attrs max_attr_value_length : ℕ)
    → IsBounded (use_all uses (init max_custom_attrs max_attr_value_length))
unfolding init
use_all-init-IsBounded uses m n =
    use_all-IsBounded uses (init m n) (record { few = omega arith; short = tt })
