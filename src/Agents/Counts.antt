-- ===== src/Agents/Counts.antt =====
-- Counting calls of the SDK in a log, and numbers in a dict.
use opentelemetry_python_con.Common.{
  ℕ, ◌+◌, ◌==◌, ◌≡◌, ◌∙◌, refl, Bool, true, false, Option, none, some, List, [], ◌∷◌, ◌++◌, map,
  Text, text_eq, arith, inl, inr, Bool-cases, if◌then◌else◌, Dict, get, put,
}
use opentelemetry_python_con.Agents.Spans.{
  Span, error_status, Status, SpanError, Operation, Attribute, get_span_status, Config,
}
use opentelemetry_python_con.Agents.Actions.{
  Action, start_span, attach, detach, set_attribute, update_name, set_status, record_metrics,
  end_span, Extraction, end_early, end_all, end_root, detach_token, rename, put_error_type,
  set_error_type, complete, finish_span, is_model_call, renaming,
}
use opentelemetry_python_con.Agents.Processor.{delete}

abbrev pub one : ℕ → ℕ → ℕ
one m n = if m == n then 1 else 0

-- whether an action starts, ends, attaches or detaches span n
abbrev pub starts : ℕ → Action → ℕ
starts n (start_span m name parent attrs kind) = one m n
starts n _ = 0

abbrev pub ends : ℕ → Action → ℕ
ends n (end_span m) = one m n
ends n _ = 0

abbrev pub attaches : ℕ → Action → ℕ
attaches n (attach m) = one m n
attaches n _ = 0

abbrev pub detaches : ℕ → Action → ℕ
detaches n (detach m) = one m n
detaches n _ = 0

abbrev pub total : (Action → ℕ) → List Action → ℕ
total f [] = 0
total f (a ∷ log) = f a + total f log

abbrev pub held : (ℕ → ℕ) → Dict ℕ → ℕ
held g [] = 0
held g ((k, v) ∷ d) = g v + held g d

abbrev pub of_option : (ℕ → ℕ) → Option ℕ → ℕ
of_option g none = 0
of_option g (some v) = g v

pub of_option_zero : (o : Option ℕ) → of_option (λ m. 0) o ≡ 0
of_option_zero none = refl
of_option_zero (some m) = refl

pub held_zero : (d : Dict ℕ) → held (λ m. 0) d ≡ 0
held_zero [] = refl
held_zero ((k, v) ∷ d) = rw (held_zero d) refl

pub total-append :
    (f : Action → ℕ) (xs ys : List Action) → total f (xs ++ ys) ≡ total f xs + total f ys
total-append f [] ys = omega arith
total-append f (a ∷ xs) ys = rw (total-append f xs ys) (omega arith)

-- What is deleted is what `get` gives.
pub held-delete :
    (g : ℕ → ℕ) (key : Text) (d : Dict ℕ)
    → held g (delete key d) + of_option g (get d key) ≡ held g d
unfolding delete get
held-delete g key [] = refl
held-delete g key ((k, v) ∷ d) = elim (Bool-cases (text_eq k key)) [
  | inl e ↦ rw e (omega arith)
  | inr e ↦ rw e (omega (arith, held-delete g key d))
]

pub held-put :
    (g : ℕ → ℕ) (key : Text) (value : ℕ) (d : Dict ℕ)
    → held g (put key value d) + of_option g (get d key) ≡ held g d + g value
unfolding put get
held-put g key value [] = omega arith
held-put g key value ((k, v) ∷ d) = elim (Bool-cases (text_eq k key)) [
  | inl e ↦ rw e (omega arith)
  | inr e ↦ rw e (omega (arith, held-put g key value d))
]

-- What counts only the calls that start and end a span or change the context.
pub record Counts (f : Action → ℕ) : Type 0 where
  pub on_attribute : (n : ℕ) (a : Attribute) → f (set_attribute n a) ≡ 0
  pub on_name : (n : ℕ) (t : Text) → f (update_name n t) ≡ 0
  pub on_status : (n : ℕ) (s : Status) → f (set_status n s) ≡ 0
  pub on_metrics : (n : ℕ) (attrs : List Attribute) → f (record_metrics n attrs) ≡ 0

pub starts-Counts : (n : ℕ) → Counts (starts n)
starts-Counts n = record {
  on_attribute = λ m a. refl;
  on_name = λ m t. refl;
  on_status = λ m s. refl;
  on_metrics = λ m attrs. refl;
}

pub ends-Counts : (n : ℕ) → Counts (ends n)
ends-Counts n = record {
  on_attribute = λ m a. refl;
  on_name = λ m t. refl;
  on_status = λ m s. refl;
  on_metrics = λ m attrs. refl;
}

pub attaches-Counts : (n : ℕ) → Counts (attaches n)
attaches-Counts n = record {
  on_attribute = λ m a. refl;
  on_name = λ m t. refl;
  on_status = λ m s. refl;
  on_metrics = λ m attrs. refl;
}

pub detaches-Counts : (n : ℕ) → Counts (detaches n)
detaches-Counts n = record {
  on_attribute = λ m a. refl;
  on_name = λ m t. refl;
  on_status = λ m s. refl;
  on_metrics = λ m attrs. refl;
}

module _ (f : Action → ℕ) (counts : Counts f) where
  -- what `f` counts of the end of a span
  abbrev pub of_end : ℕ → ℕ
  of_end m = f (end_span m)

  pub total-end_early :
      (reason : Text) (o : Option ℕ) → total f (end_early reason o) ≡ of_option of_end o
  unfolding end_early
  total-end_early reason none = refl
  total-end_early reason (some m) = rw (counts.on_status m _) (omega arith)

  pub total-end_root :
      (recording : Bool) (o : Option ℕ) → total f (end_root recording o) ≡ of_option of_end o
  unfolding end_root
  total-end_root recording none = refl
  total-end_root true (some m) = rw (counts.on_status m _) (omega arith)
  total-end_root false (some m) = omega arith

  pub total-end_all : (d : Dict ℕ) → total f (end_all d) ≡ held of_end d
  unfolding end_all end_early
  total-end_all [] = refl
  total-end_all ((k, m) ∷ d) = rw (counts.on_status m _, total-end_all d) (omega arith)

  total-rename :
      (config : Config) (m : ℕ) (op : Option Operation) (model : Option Text)
      (attrs : List Attribute)
      → total f (rename config m op model attrs) ≡ 0
  unfolding rename
  total-rename config m none model attrs = refl
  total-rename config m (some op) none attrs = refl
  total-rename config m (some op) (some []) attrs = refl
  total-rename config m (some op) (some (c ∷ cs)) attrs = rw (counts.on_name m _) refl

  total-set_attributes :
      (m : ℕ) (attrs : List Attribute) → total f (map (set_attribute m) attrs) ≡ 0
  total-set_attributes m [] = refl
  total-set_attributes m (a ∷ attrs) =
      rw (counts.on_attribute m a, total-set_attributes m attrs) refl

  total-if : (b : Bool) (xs : List Action) → total f xs ≡ 0 → total f (if b then xs else []) ≡ 0
  total-if true xs h = h
  total-if false xs h = refl

  total-put_error_type : (m : ℕ) (o : Option Text) → total f (put_error_type m o) ≡ 0
  unfolding put_error_type
  total-put_error_type m none = refl
  total-put_error_type m (some []) = refl
  total-put_error_type m (some (c ∷ cs)) = rw (counts.on_attribute m _) refl

  total-set_error_type : (m : ℕ) (e : Option SpanError) → total f (set_error_type m e) ≡ 0
  unfolding set_error_type
  total-set_error_type m none = refl
  total-set_error_type m (some e) = total-put_error_type m _

  total-renaming :
      (config : Config) (m : ℕ) (span : Span) (attrs : List Attribute)
      → total f (renaming config m span attrs) ≡ 0
  unfolding renaming
  total-renaming config m span attrs =
      total-if (is_model_call span.span_data) _ (total-rename config m _ _ attrs)

  total-complete :
      (config : Config) (m : ℕ) (span : Span) (attrs : List Attribute) (raised : Option Text)
      → total f (complete config m span attrs raised) ≡ of_end m
  unfolding complete
  total-complete config m span attrs (some reason) =
      rw (counts.on_status m (error_status reason)) (omega arith)
  total-complete config m span attrs none =
      let named = total-renaming config m span attrs in
      let typed = total-set_error_type m span.error in
      let status = counts.on_status m (get_span_status span.error) in
      let metrics = counts.on_metrics m attrs in
      let inner =
        total-append f (renaming config m span attrs)
          (set_status m (get_span_status span.error) ∷ set_error_type m span.error) in
      total-append f _ (record_metrics m attrs ∷ end_span m ∷ [])
      ∙ omega (arith, named, typed, status, metrics, inner)

  pub total-finish_span :
      (config : Config) (o : Option ℕ) (recording : Bool) (span : Span) (extraction : Extraction)
      → total f (finish_span config o recording span extraction) ≡ of_option of_end o
  unfolding finish_span
  total-finish_span config none recording span extraction = refl
  total-finish_span config (some m) false span extraction = omega arith
  total-finish_span config (some m) true span extraction =
      let set = total-set_attributes m extraction.attributes in
      let completed = total-complete config m span extraction.attributes extraction.raised in
      total-append f (map (set_attribute m) extraction.attributes)
        (complete config m span extraction.attributes extraction.raised)
      ∙ omega (arith, set, completed)

pub total-detach_token :
    (f : Action → ℕ) (o : Option ℕ) → total f (detach_token o) ≡ of_option (λ m. f (detach m)) o
unfolding detach_token
total-detach_token f none = refl
total-detach_token f (some m) = omega arith
