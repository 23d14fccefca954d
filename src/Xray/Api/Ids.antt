-- ===== src/Xray/Api/Ids.antt =====
-- A test for valid ids, for the concrete instances of the API.
use opentelemetry_python_con.Common.{
  ℕ, ◌^◌, ◌≡◌, ◌↔◌, Bool, true, false, not, ◌&&◌, ltb, ◌==◌, arith,
}
use opentelemetry_python_con.Xray.Hex.{ℤ, pos, negsuc}
use opentelemetry_python_con.Xray.Api.{IsId}

abbrev pub is_id : ℕ → ℤ → Bool
is_id w (pos n) = not (n == 0) && ltb n (16 ^ w)
is_id w (negsuc n) = false

is_id_iff : (w : ℕ) (z : ℤ) → (is_id w z ≡ true) ↔ IsId w z
is_id_iff w (pos n) = ground arith
is_id_iff w (negsuc n) = (λ e. absurd (ground arith), λ e. absurd e)

pub both_iff : (t s : ℤ) → ((is_id 32 t && is_id 16 s) ≡ true) ↔ (IsId 32 t × IsId 16 s)
both_iff t s = ground (arith, is_id_iff 32 t, is_id_iff 16 s)
