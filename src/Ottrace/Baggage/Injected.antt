-- ===== src/Ottrace/Baggage/Injected.antt =====
-- Which entries `inject` puts into a carrier.
use opentelemetry_python_con.Common.{
  ℕ, ◌+◌, ◌-◌, ◌≤◌, ◌≡◌, ◌⊎◌, refl, Bool, true, List, [], ◌∷◌, ◌++◌, All, All-map, In, here, there,
  length, length-append, Text, arith, inl, inr,
}
use opentelemetry_python_con.Common.{Dict}
use opentelemetry_python_con.Ottrace.Baggage.{
  ot_baggage_prefix, max_baggage_entries, max_baggage_bytes_per_entry, max_baggage_total_bytes,
  entry_size, Step, break, skip, set_header, inject_entry, inject_loop, inject_baggage,
  valid_header_name, valid_header_value,
}

-- what a header adds to the baggage of the receiver
unfoldable pub sent_size : List (Text × Text) → ℕ
sent_size [] = 0
sent_size (h ∷ l) = (length h.0 - 11) + length h.1 + sent_size l

module _ (is_word : ℕ → Bool) where
  -- The header is that of an entry of the baggage, with a name and a value that are valid, and of no
  -- more than 4096 characters.
  abbrev pub IsHeaderOf : Dict Text → Text × Text → Type 0
  IsHeaderOf baggage h =
      (name : Text) × (In (name, h.1) baggage
        × ((h.0 ≡ ot_baggage_prefix ++ name)
            × ((valid_header_name is_word name ≡ true)
                × ((valid_header_value is_word h.1 ≡ true)
                    × (entry_size name h.1 ≤ max_baggage_bytes_per_entry)))))

  inject_entry-set :
      (name value : Text) (total entries : ℕ)
      → inject_entry is_word name value total entries ≡ set_header
      → (valid_header_name is_word name ≡ true)
        × ((valid_header_value is_word value ≡ true)
            × ((entry_size name value ≤ max_baggage_bytes_per_entry)
                × ((total + entry_size name value ≤ max_baggage_total_bytes)
                    × (entries + 1 ≤ max_baggage_entries))))
  unfolding inject_entry
  inject_entry-set name value total entries h = ground arith

  inject_entry-skip :
      (name value : Text) (total entries : ℕ)
      → inject_entry is_word name value total entries ≡ skip
      → entries + 1 ≤ max_baggage_entries
  unfolding inject_entry
  inject_entry-skip name value total entries h = ground arith

  Step-cases : (s : Step) → (s ≡ break) ⊎ ((s ≡ skip) ⊎ (s ≡ set_header))
  Step-cases break = inl refl
  Step-cases skip = inr (inl refl)
  Step-cases set_header = inr (inr refl)

  IsHeaderOf-later :
      (baggage : Dict Text) (e : Text × Text) (h : Text × Text)
      → IsHeaderOf baggage h
      → IsHeaderOf (e ∷ baggage) h
  IsHeaderOf-later baggage e h (name, (m, rest)) = (name, (there m, rest))

  inject_loop-IsHeaderOf :
      (baggage : Dict Text) (total entries : ℕ)
      → All (IsHeaderOf baggage) (inject_loop is_word baggage total entries)
  unfolding inject_loop
  inject_loop-IsHeaderOf [] total entries = tt
  inject_loop-IsHeaderOf ((name, value) ∷ baggage) total entries =
      elim (Step-cases (inject_entry is_word name value total entries)) [
        | inl e ↦ rw (e, inject_loop) tt
        | inr (inl e) ↦
            rw (e, inject_loop)
              (All-map (IsHeaderOf baggage) (IsHeaderOf ((name, value) ∷ baggage))
                (inject_loop is_word baggage total (entries + 1))
                (IsHeaderOf-later baggage (name, value))
                (inject_loop-IsHeaderOf baggage total (entries + 1)))
        | inr (inr e) ↦
            let (n, (v, (small, _))) = inject_entry-set name value total entries e in
            rw (e, inject_loop)
              (
                (name, (here, (refl, (n, (v, small))))),
                All-map (IsHeaderOf baggage) (IsHeaderOf ((name, value) ∷ baggage))
                    (inject_loop is_word baggage (total + entry_size name value) (entries + 1))
                    (IsHeaderOf-later baggage (name, value))
                    (inject_loop-IsHeaderOf baggage (total + entry_size name value) (entries + 1)),
              )
      ]

  length-header : (name : Text) → length (ot_baggage_prefix ++ name) ≡ 11 + length name
  length-header name = length-append ot_baggage_prefix name

  inject_loop-le :
      (baggage : Dict Text) (total entries : ℕ)
      → total ≤ max_baggage_total_bytes
      → entries ≤ max_baggage_entries
      → (total + sent_size (inject_loop is_word baggage total entries) ≤ max_baggage_total_bytes)
        × (entries + length (inject_loop is_word baggage total entries) ≤ max_baggage_entries)
  unfolding inject_loop sent_size
  inject_loop-le [] total entries h k = (omega (arith, h), omega (arith, k))
  inject_loop-le ((name, value) ∷ baggage) total entries h k =
      elim (Step-cases (inject_entry is_word name value total entries)) [
        | inl e ↦ rw (e, inject_loop) (omega (arith, h), omega (arith, k))
        | inr (inl e) ↦
            let (small, few) =
              inject_loop-le baggage total (entries + 1) h
                (inject_entry-skip name value total entries e) in
            rw (e, inject_loop) (small, omega (arith, few))
        | inr (inr e) ↦
            let (_, (_, (_, (t, n)))) = inject_entry-set name value total entries e in
            let (small, few) =
              inject_loop-le baggage (total + entry_size name value) (entries + 1) t n in
            rw (e, inject_loop) (omega (arith, small, length-header name), omega (arith, few))
      ]

  -- Each header that `inject` sets for the baggage is that of a valid entry of no more than 4096
  -- characters, with the prefix before its name; there are no more than 180 of them, and their names
  -- and values, without the prefix, have no more than 8192 characters together.
  pub inject_baggage_lem :
      (baggage : Dict Text)
      → All (IsHeaderOf baggage) (inject_baggage is_word baggage)
        × ((sent_size (inject_baggage is_word baggage) ≤ max_baggage_total_bytes)
            × (length (inject_baggage is_word baggage) ≤ max_baggage_entries))
  unfolding inject_baggage
  inject_baggage_lem baggage =
      let (small, few) = inject_loop-le baggage 0 0 (omega arith) (omega arith) in
      (inject_loop-IsHeaderOf baggage 0 0, (omega (arith, small), omega (arith, few)))
