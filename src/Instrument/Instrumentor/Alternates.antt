-- ===== src/Instrument/Instrumentor/Alternates.antt =====
-- A library is patched and unpatched in turn.
use mathlib.Core.Path.{subst}
use opentelemetry_python_con.Common.{
  ◌≡◌, refl, ap, ◌∙◌, Bool, true, false, Option, none, some, List, [], ◌∷◌, Text, if◌then◌else◌,
  arith, Bool-cases, inl, inr,
}
use opentelemetry_python_con.Semconv.Modes.{Stability, initialize, initial_mapping}
use opentelemetry_python_con.Instrument.Dependencies.{DependencyConflict}
use opentelemetry_python_con.Instrument.Instrumentor.{
  Patch, patched, unpatched, Instrumentor, create, Arguments, patch, checked, instrument, unpatch,
  uninstrument, Outcome, Call, instrument_call, uninstrument_call, step, run,
}

-- A history, the last patch first, that leaves the library patched or not, with no patch of a patched library and
-- no removal of a patch that is not there.
abbrev pub Alternates : Bool → List Patch → Type 0
Alternates true [] = ⊥
Alternates false [] = Unit
Alternates true (patched ∷ patches) = Alternates false patches
Alternates false (patched ∷ patches) = ⊥
Alternates true (unpatched ∷ patches) = ⊥
Alternates false (unpatched ∷ patches) = Alternates true patches

pub record IsValid (i : Instrumentor) : Type 0 where
  pub alternates : Alternates i.is_instrumented i.patches
  pub initialized : i.is_instrumented ≡ true → i.stability.initialized ≡ true

-- a state that is initialized now
abbrev new_stability : Option Text → Stability
new_stability opt_in = record { initialized = true; signal_mapping = initial_mapping opt_in }

initialize-initialized :
    (opt_in : Option Text) (s : Stability) → (initialize opt_in s).initialized ≡ true
unfolding initialize
initialize-initialized opt_in s = elim (Bool-cases s.initialized) [
  | inl e ↦ ap (λ b. (if b then s else new_stability opt_in).initialized) e ∙ e
  | inr e ↦ ap (λ b. (if b then s else new_stability opt_in).initialized) e
]

module _ (Req Error : Type 0) where
  if-IsValid :
      (b : Bool) (p q : Instrumentor × Outcome Req Error)
      → (b ≡ true → IsValid p.0)
      → (b ≡ false → IsValid q.0)
      → IsValid (if b then p else q).0
  if-IsValid true p q h k = h refl
  if-IsValid false p q h k = k refl

  patch-IsValid :
      (opt_in : Option Text) (error : Option Error) (i : Instrumentor)
      → i.is_instrumented ≡ false
      → IsValid i
      → IsValid (patch {Req = Req} {Error = Error} opt_in error i).0
  unfolding patch
  patch-IsValid opt_in none i h v = record {
    alternates = subst (λ b. Alternates b i.patches) h v.alternates;
    initialized = λ _. initialize-initialized opt_in i.stability;
  }
  patch-IsValid opt_in (some e) i h v = record {
    alternates = v.alternates;
    initialized = λ _. initialize-initialized opt_in i.stability;
  }

  checked-IsValid :
      (arguments : Arguments) (conflict : Option (DependencyConflict Req)) (opt_in : Option Text)
      (error : Option Error) (i : Instrumentor)
      → i.is_instrumented ≡ false
      → IsValid i
      → IsValid (checked arguments conflict opt_in error i).0
  unfolding checked
  checked-IsValid arguments none opt_in error i h v = patch-IsValid opt_in error i h v
  checked-IsValid arguments (some conflict) opt_in error i h v =
      if-IsValid arguments.raise_exception_on_conflict _ _ (λ e. v) (λ e. v)

  unpatch-IsValid :
      (error : Option Error) (i : Instrumentor)
      → i.is_instrumented ≡ true
      → IsValid i
      → IsValid (unpatch {Req = Req} {Error = Error} error i).0
  unfolding unpatch
  unpatch-IsValid none i h v = record {
    alternates = subst (λ b. Alternates b i.patches) h v.alternates;
    initialized = λ e. absurd (ground arith);
  }
  unpatch-IsValid (some e) i h v = v

  step-IsValid : (call : Call Req Error) (i : Instrumentor) → IsValid i → IsValid (step call i)
  unfolding step instrument uninstrument
  step-IsValid (instrument_call arguments conflict opt_in error) i v =
      if-IsValid i.is_instrumented _ _ (λ e. v)
        (λ e.
          if-IsValid arguments.skip_dep_check _ _ (λ _. patch-IsValid opt_in error i e v)
            (λ _. checked-IsValid arguments conflict opt_in error i e v))
  step-IsValid (uninstrument_call error) i v =
      if-IsValid i.is_instrumented _ _ (λ e. unpatch-IsValid error i e v) (λ e. v)

  run-IsValid :
      (calls : List (Call Req Error)) (i : Instrumentor) → IsValid i → IsValid (run calls i)
  unfolding run
  run-IsValid [] i v = v
  run-IsValid (call ∷ calls) i v = run-IsValid calls (step call i) (step-IsValid call i v)

  -- Whatever calls of `instrument` and `uninstrument` there are, with whatever conflicts and exceptions of a
  -- subclass: the library is patched and unpatched in turn, the patch first, and the flag says which was last;
  -- and the modes of the semantic conventions are initialized while it is patched.
  pub run-create-IsValid :
      (calls : List (Call Req Error)) (stability : Stability)
      → IsValid (run calls (create stability))
  unfolding create
  run-create-IsValid calls stability =
      run-IsValid calls (create stability)
        (record { alternates = tt; initialized = λ e. absurd (ground arith) })
