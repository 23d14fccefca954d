-- ===== src/Ottrace/Baggage/Limits.antt =====
-- How much baggage `extract` makes of a carrier.
use opentelemetry_python_con.Common.{
  put, length-put, ℕ, ◌+◌, ◌-◌, ◌≤◌, ◌≡◌, ◌⊎◌, refl, ap, true, false, Option, none, some, List, [],
  ◌∷◌, length, drop, Text, text_eq, text_eq_sound, ltb, leb, arith, Bool-cases, inl, inr,
}
use Prim.Native.Nat.{max}
use opentelemetry_python_con.Common.{Dict, get}
use opentelemetry_python_con.Sampler.Applier.Matching.{starts_with}
use opentelemetry_python_con.Ottrace.Baggage.{
  ot_baggage_prefix, max_baggage_entries, max_baggage_bytes_per_entry, max_baggage_total_bytes,
  entry_size, size, old_size, stop_loop, next, read_entry, read_key, extract_loop, extract_baggage,
}

old_size-same :
    (key k v : Text) (rest : Dict Text)
    → text_eq k key ≡ true
    → old_size key ((k, v) ∷ rest) ≡ entry_size key v
unfolding old_size get
old_size-same key k v rest e = rw (e, old_size, get) refl

old_size-other :
    (key k v : Text) (rest : Dict Text)
    → text_eq k key ≡ false
    → old_size key ((k, v) ∷ rest) ≡ old_size key rest
unfolding old_size get
old_size-other key k v rest e = rw (e, old_size, get) refl

size-put :
    (key value : Text) (b : Dict Text)
    → size (put key value b) + old_size key b ≡ size b + entry_size key value
unfolding put size old_size get
size-put key value [] = omega arith
size-put key value ((k, v) ∷ rest) = elim (Bool-cases (text_eq k key)) [
  | inl e ↦ rw e (omega (arith, old_size-same key k v rest e, ap length (text_eq_sound k key e)))
  | inr e ↦ rw e (omega (arith, old_size-other key k v rest e, size-put key value rest))
]

-- The variables of the loop: the size of the baggage, and no fewer entries than it has; from one pass
-- to the next each is within its limit or does not grow.
record Next (b : Dict Text) (total entries : ℕ) (b' : Dict Text) (total' entries' : ℕ)
    : Type 0 where
  sized : total ≡ size b → total' ≡ size b'
  counted : length b ≤ entries → length b' ≤ entries'
  total_le : max total' max_baggage_total_bytes ≤ max total max_baggage_total_bytes
  entries_le : max entries' max_baggage_entries ≤ max entries max_baggage_entries

read_entry_cases :
    (key value : Text) (b : Dict Text) (total entries : ℕ)
    → (read_entry key value b total entries ≡ stop_loop)
      ⊎ ((b' : Dict Text) × ((total' : ℕ) × ((entries' : ℕ) × ((read_entry key value b total entries
                  ≡ next b' total' entries')
                × Next b total entries b' total' entries'))))
unfolding read_entry
read_entry_cases key value b total entries = elim (Bool-cases (leb max_baggage_entries entries)) [
  | inl e ↦ inl (rw e refl)
  | inr e ↦ elim (Bool-cases (ltb max_baggage_bytes_per_entry (entry_size key value))) [
    | inl l ↦ inr (
      b,
      (
        total,
        (
          entries + 1,
          (
            rw (e, l) refl,
            record {
              sized = λ h. h;
              counted = λ h. omega (arith, h);
              total_le = omega arith;
              entries_le = ground arith;
            },
          ),
        ),
      ),
    )
    | inr l ↦
        elim (Bool-cases
          (ltb (max_baggage_total_bytes + old_size key b) (total + entry_size key value))) [
            | inl f ↦ inl (rw (e, l, f) refl)
            | inr f ↦ inr (
              put key value b,
              (
                total + entry_size key value - old_size key b,
                (
                  entries + 1,
                  (
                    rw (e, l, f) refl,
                    record {
                      sized = λ h. omega (arith, size-put key value b, h);
                      counted = λ h. omega (arith, length-put key value b, h);
                      total_le = ground arith;
                      entries_le = ground arith;
                    },
                  ),
                ),
              ),
            )
          ]
  ]
]

same : (b : Dict Text) (total entries : ℕ) → Next b total entries b total entries
same b total entries = record {
  sized = λ h. h;
  counted = λ h. h;
  total_le = omega arith;
  entries_le = omega arith;
}

read_key_cases :
    (key : Text) (value : Option Text) (b : Dict Text) (total entries : ℕ)
    → (read_key key value b total entries ≡ stop_loop)
      ⊎ ((b' : Dict Text) × ((total' : ℕ) × ((entries' : ℕ) × ((read_key key value b total entries
                  ≡ next b' total' entries')
                × Next b total entries b' total' entries'))))
unfolding read_key
read_key_cases key none b total entries = inr (b, (total, (entries, (refl, same b total entries))))
read_key_cases key (some value) b total entries =
    elim (Bool-cases (starts_with ot_baggage_prefix key)) [
      | inl e ↦ rw e (read_entry_cases (drop 11 key) value b total entries)
      | inr e ↦ rw e (inr (b, (total, (entries, (refl, same b total entries)))))
    ]

extract_loop-le :
    (value_of : Text → Option Text) (keys : List Text) (b : Dict Text) (total entries : ℕ)
    → total ≡ size b
    → length b ≤ entries
    → (size (extract_loop value_of keys b total entries) ≤ max total max_baggage_total_bytes)
      × (length (extract_loop value_of keys b total entries) ≤ max entries max_baggage_entries)
unfolding extract_loop
extract_loop-le value_of [] b total entries h k = (omega (arith, h), omega (arith, k))
extract_loop-le value_of (key ∷ keys) b total entries h k =
    elim (read_key_cases key (value_of key) b total entries) [
      | inl e ↦ rw (e, extract_loop) (omega (arith, h), omega (arith, k))
      | inr (b', (total', (entries', (e, n)))) ↦
          let (small, few) =
            extract_loop-le value_of keys b' total' entries' (n.sized h) (n.counted k) in
          rw (e, extract_loop) (omega (arith, small, n.total_le), omega (arith, few, n.entries_le))
    ]

-- The baggage that `extract` sets has no more than 180 entries and 8192 characters, or than the
-- context's baggage had before, whatever the carrier holds.
pub extract_baggage-le :
    (value_of : Text → Option Text) (keys : List Text) (b : Dict Text)
    → (size (extract_baggage value_of keys b) ≤ max (size b) max_baggage_total_bytes)
      × (length (extract_baggage value_of keys b) ≤ max (length b) max_baggage_entries)
unfolding extract_baggage
extract_baggage-le value_of keys b =
    extract_loop-le value_of keys b (size b) (length b) refl (omega arith)
