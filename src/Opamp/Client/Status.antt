-- ===== src/Opamp/Client/Status.antt =====
-- The status of the remote configuration, and the numbers of prepared messages.
use opentelemetry_python_con.Common.{
  ℕ, ◌≡◌, ◌↔◌, ◌⊎◌, refl, Bool, true, false, Option, none, some, Text, text_eq_iff, arith,
  Bool-cases, inl, inr,
}
use opentelemetry_python_con.Opamp.Proto.{Bytes, RemoteConfigStatus}
use opentelemetry_python_con.Opamp.Client.{Client, status_changed, update_remote_config_status}

clash : {b : Bool} → b ≡ true → b ≡ false → ⊥
clash e h = ground arith

module _ {Description Config : Type 0} (hash : Bytes) (status : ℕ) (error_message : Text)
    (c : Client Description Config) where
  abbrev pub reported : RemoteConfigStatus
  reported = record {
    last_remote_config_hash = hash;
    status = status;
    error_message = error_message;
  }

  unchanged_iff :
      (old : Option RemoteConfigStatus)
      → (status_changed old hash status error_message ≡ false) ↔ (old ≡ some reported)
  unfolding status_changed
  unchanged_iff none = ground arith
  unchanged_iff (some s) =
      ground (
        arith,
        text_eq_iff s.last_remote_config_hash hash,
        text_eq_iff s.error_message error_message,
      )

  -- After an update the status is the reported one; a message is returned, and holds it, exactly if it
  -- was not the status before.
  pub update_remote_config_status_lem :
      let (sent, c') = update_remote_config_status hash status error_message c in
      (c'.remote_config_status ≡ some reported)
      × ((sent ≡ none) ↔ (c.remote_config_status ≡ some reported))
      × ((sent ≡ none) ⊎ (sent ≡ some reported))
  unfolding update_remote_config_status
  update_remote_config_status_lem =
      elim (Bool-cases (status_changed c.remote_config_status hash status error_message)) [
        | inl e ↦ rw e (
          refl,
          (
            λ n. absurd (ground arith),
            λ o. absurd (clash (e) ((unchanged_iff c.remote_config_status).1 o)),
          ),
          inr refl,
        )
        | inr e ↦ rw e (
          (unchanged_iff c.remote_config_status).0 e,
          (λ n. (unchanged_iff c.remote_config_status).0 e, λ o. refl),
          inl refl,
        )
      ]
