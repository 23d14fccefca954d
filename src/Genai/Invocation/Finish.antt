-- ===== src/Genai/Invocation/Finish.antt =====
-- What is left of an invocation when it is finished.
use opentelemetry_python_con.Common.{
  ◌≡◌, refl, ap, ◌∙◌, Option, none, some, [], ◌∷◌, ◌++◌, length, length-append, arith,
  if◌then◌else◌,
}
use opentelemetry_python_con.Genai.Invocation.{
  Invocation, Api, Result, ok, raise_error, interrupt, new, start, end_span, finish_with, finish,
  stop, fail, raise_after, managed,
}

-- A started invocation, whose span was ended as often as it was finished.
pub record IsStarted {Context Error : Type 0} (before : Context) (i : Invocation Context Error)
    : Type 0 where
  pub token : i.context_token ≡ some before
  pub ends : i.span_ends ≡ length i.finished

module _ {Context Error : Type 0} (api : Api Context Error) where
  pub finish-IsStarted :
      (before : Context) (error : Option Error) (i : Invocation Context Error)
      → IsStarted before i
      → IsStarted before (finish api error i).0
        × ((finish api error i).0.finished ≡ i.finished ++ error ∷ [])
  unfolding finish finish_with end_span
  finish-IsStarted before error i h =
      let result = end_span api before (record i { finished = i.finished ++ error ∷ [] }) in
      let e : (finish api error i).0 ≡ result = ap (λ t. (finish_with api t error i).0) h.token in
      (
        record {
          token = ap (λ r. r.context_token) e ∙ h.token;
          ends = omega (
            arith,
            ap (λ r. r.span_ends) e,
            ap (λ r. length r.finished) e,
            h.ends,
            length-append i.finished (error ∷ []),
          );
        },
        ap (λ r. r.finished) e,
      )

  -- the error of a body, where it ends with an `Exception` or with none
  abbrev pub failure : Result Error → Option Error
  failure ok = none
  failure (raise_error e) = some e
  failure (interrupt e) = some e

  -- An invocation in a `with` statement whose body leaves it alone: if the body ends, or raises an
  -- `Exception`, then the invocation is finished once, with that exception, its span is ended once, and
  -- the context is the one before, unless `detach` raises; what the body raised is raised, or in its place
  -- what `_apply_finish` raises. If the body is interrupted by another `BaseException`, then nothing is
  -- finished, the span is not ended, and the context stays.
  pub managed_cases :
      (before : Context) (result : Result Error)
      → managed api (λ i. (i, result)) (start api (new before)) ≡ (elim result [
        | interrupt e ↦ (start api (new before), interrupt e)
        | other ↦ (
          record {
            context_token = some before;
            current = if api.detach_raises before then api.with_span before else before;
            finished = failure other ∷ [];
            span_ends = 1;
          },
          raise_after api (api.apply_finish_raises (failure other)) other,
        )
      ])
  unfolding managed start new stop fail finish finish_with end_span
  managed_cases before ok = refl
  managed_cases before (raise_error e) = refl
  managed_cases before (interrupt e) = refl
