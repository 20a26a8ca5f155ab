-- ===== src/Record/Resets.antt =====
-- backend/src/record/identity.rs: host reset capabilities, each consumed once while it is remembered.
pub mod Once
use shimpz_admin.Prelude.{
  ◌≡◌, ◌⊎◌, refl, sym, subst, inl, inr, Bool, true, false, not, ◌&&◌, ◌||◌, List, [], ◌∷◌, ◌++◌,
  Option, none, some, Text, map, length, keep, leb, Bool-cases, arith, if◌then◌else◌,
}
use shimpz_admin.Prelude.Int.{ℤ, ltb_ℤ}
use shimpz_admin.Protocol.Origin.{same}
use shimpz_admin.Signin.Totp.{int, text}
use shimpz_admin.Record.{
  corrupt, Result, ok, err, ◌>>=◌, ok_or, Member, missing, held, HostReset, Data, Store, Disk,
  Outcome, mutate,
}
use shimpz_admin.Record.State.{
  max_consumed_host_resets, is_known, reset_of, reset_item, next_seen, resets_from,
  consumed_host_resets,
}

abbrev pub is_active : ℤ → Text × ℤ → Bool
is_active now (t, at) = not (ltb_ℤ at now)

abbrev pub stored : Text × ℤ → Option HostReset
stored (t, at) = some (record { digest = text t; expires_at = int at })

abbrev pub remembered : Member (List (Option HostReset)) → Result (List (Text × ℤ))
remembered missing = ok []
remembered m = ok_or corrupt (consumed_host_resets m)

abbrev pub consumed_from : Text → ℤ → Data → List (Text × ℤ) → Result (Data × Bool)
consumed_from digest expires d active =
    if is_known digest active || leb max_consumed_host_resets (length active)
    then ok (d, false)
    else ok (
      record d { consumed_host_resets = held (map stored active ++ stored (digest, expires) ∷ []) },
      true,
    )

-- The change of a consumed capability.
unfoldable pub consume_reset : Text → ℤ → ℤ → Data → Result (Data × Bool)
consume_reset digest expires now d = remembered d.consumed_host_resets >>= λ records.
    consumed_from digest expires d (keep (is_active now) records)

unfoldable pub consume_host_reset_capability {ℓ} :
    {J : Type ℓ} → Disk → Text → ℤ → ℤ → Store J → Outcome J Bool
consume_host_reset_capability disk digest expires now s =
    mutate disk (consume_reset digest expires now) (λ consumed. consumed) none s
