-- ===== src/Genai/Buffers/Changes.antt =====
-- A change at an index of a list that is filled up to it.
use opentelemetry_python_con.Common.{
  ℕ, ◌+◌, ◌-◌, zero, suc, ◌≡◌, refl, sym, ap, ◌∙◌, Option, none, some, List, [], ◌∷◌, ◌++◌, length,
  get_elem?, get_elem?_lt, length-append, append-eq-nil, Text, ◌==◌, arith, if◌then◌else◌,
  Bool-cases, inl, inr,
}
use opentelemetry_python_con.Genai.Buffers.{fill, fill_to, change_at}

module _ {ℓ} {A : Type ℓ} where
  length-fill : (make : ℕ → A) (n : ℕ) (xs : List A) → length (fill make n xs) ≡ length xs + n
  unfolding fill
  length-fill make zero xs = omega arith
  length-fill make (suc n) xs = omega (
    arith,
    length-fill make n (xs ++ make (length xs) ∷ []),
    length-append xs (make (length xs) ∷ []),
  )

  get-change_at :
      (f : A → A) (k i : ℕ) (xs : List A) (x : A)
      → get_elem? xs k ≡ some x
      → get_elem? (change_at f k xs) i ≡ (if k == i then some (f x) else get_elem? xs i)
  unfolding change_at
  get-change_at f k i [] x h = absurd (ground arith)
  get-change_at f zero zero (y ∷ xs) x h = ground arith
  get-change_at f zero (suc i) (y ∷ xs) x h = ground arith
  get-change_at f (suc k) zero (y ∷ xs) x h = ground arith
  get-change_at f (suc k) (suc i) (y ∷ xs) x h = ground (arith, get-change_at f k i xs x)

  -- What is seen of an entry; nothing is seen where there is none, or a new one.
  module _ (seen : Option A → List Text) (make : ℕ → A) (unseen : seen none ≡ [])
      (new_unseen : (i : ℕ) → seen (some (make i)) ≡ []) where
    seen-snoc :
        (xs : List A) (k i : ℕ) → seen (get_elem? (xs ++ make k ∷ []) i) ≡ seen (get_elem? xs i)
    seen-snoc [] k zero = new_unseen k ∙ sym unseen
    seen-snoc [] k (suc i) = refl
    seen-snoc (x ∷ xs) k zero = refl
    seen-snoc (x ∷ xs) k (suc i) = seen-snoc xs k i

    seen-fill :
        (n : ℕ) (xs : List A) (i : ℕ) → seen (get_elem? (fill make n xs) i) ≡ seen (get_elem? xs i)
    unfolding fill
    seen-fill zero xs i = refl
    seen-fill (suc n) xs i =
        seen-fill n (xs ++ make (length xs) ∷ []) i ∙ seen-snoc xs (length xs) i

    -- A change at index `k` that adds what is seen there.
    pub seen-change :
        (f : A → A) (added : List Text)
        → ((x : A) → seen (some (f x)) ≡ seen (some x) ++ added)
        → (k i : ℕ) (xs : List A)
        → seen (get_elem? (change_at f k (fill_to make (k + 1) xs)) i)
          ≡ seen (get_elem? xs i) ++ (if k == i then added else [])
    unfolding fill_to
    seen-change f added adds k i xs =
        let ys = fill make (k + 1 - length xs) xs in
        let (x, at) : (x : A) × (get_elem? ys k ≡ some x) =
          get_elem?_lt ys k (omega (arith, length-fill make (k + 1 - length xs) xs)) in
        elim (Bool-cases (k == i)) [
          | inl e ↦
              let same : k ≡ i = ground arith in
              ap seen (get-change_at f k i ys x at)
              ∙ rw e (
                  adds x
                  ∙ ap (λ l. l ++ added)
                      (ap seen (sym at)
                        ∙ seen-fill (k + 1 - length xs) xs k
                        ∙ ap (λ j. seen (get_elem? xs j)) same))
          | inr e ↦
              ap seen (get-change_at f k i ys x at)
              ∙ rw e
                  (seen-fill (k + 1 - length xs) xs i ∙ sym (append-eq-nil (seen (get_elem? xs i))))
        ]
