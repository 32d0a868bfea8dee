-- ===== src/Environment/Deadline.antt =====
-- The deadline of an environment.
use etos.Prelude.{
  ◌≡◌, ◌⊎◌, inl, inr, refl, Bool, true, false, not, ◌&&◌, ◌<>◌, List, [], ◌∷◌, arith, Bool-cases,
}
use etos.Kube.{Library, IsLawful, is_zero}
use etos.Kube.Monad.{Sys}
use etos.Controller.{is_status_reason}
use etos.Controller.Reasons.{status_active, reason_timed_out}
use etos.EnvironmentRequest.Failing.{is_status_reason-set}
use etos.Environment.Types.{
  inactive, Environment, EnvironmentApi, Call, updated_status, deleted, update_status,
}
use etos.Environment.TimeOut.{is_unset, time_out, check_deadline}

module _ {W E Time : Type 0} (L : Library E Time) (api : EnvironmentApi W E Time) where
  -- The environment has a deadline, is not being deleted, and the clock is after the deadline.
  abbrev pub exceeded : Environment Time → Sys W (Call Time) → Bool
  exceeded env s =
      (not (is_unset env.deadline) && is_zero env.metadata.deletion_timestamp)
      && L.after (api.now s.server).0 (api.unix env.deadline)

  -- The one call that follows an exceeded deadline.
  abbrev pub TimedOut : List (Call Time) → List (Call Time) → Type 0
  TimedOut before [] = ⊥
  TimedOut before (updated_status env ∷ calls) =
      (calls ≡ before) × (is_status_reason L env.conditions status_active reason_timed_out ≡ true)
  TimedOut before (deleted env ∷ calls) =
      (calls ≡ before) × (is_status_reason L env.conditions status_active reason_timed_out ≡ true)
  TimedOut before (call ∷ calls) = ⊥

  time_out-TimedOut :
      (law : IsLawful L) (env : Environment Time) (t : Time) (s : Sys W (Call Time))
      → TimedOut s.calls (time_out L api env t s).1.calls
  unfolding time_out update_status
  time_out-TimedOut law env t s =
      let c =
        inactive L api reason_timed_out
          ("Environment deadline of " <> (api.time_text t <> " exceeded")) in
      let now = api.now s.server in
      let set = L.set_status_condition now.0 env.conditions c in
      let said = is_status_reason-set L law now.0 env.conditions c in
      elim (Bool-cases set.1) [
        | inl changed ↦ rw (changed, time_out) (refl, said)
        | inr same ↦ rw (same, time_out) (refl, said)
      ]

  -- Once the deadline of an environment that is not being deleted has passed, exactly one call is sent:
  -- a status whose condition Active has the reason of a time-out, or the deletion of an environment that
  -- has it. Without a deadline, before it, or while being deleted, nothing is sent.
  pub check_deadline_lem :
      (law : IsLawful L) (env : Environment Time) (s : Sys W (Call Time))
      → ((exceeded env s ≡ true) × TimedOut s.calls (check_deadline L api env s).1.calls)
        ⊎ ((exceeded env s ≡ false) × ((check_deadline L api env s).1.calls ≡ s.calls))
  unfolding check_deadline
  check_deadline_lem law env s =
      elim (Bool-cases (not (is_unset env.deadline) && is_zero env.metadata.deletion_timestamp)) [
        | inr idle ↦ inr (ground arith, rw (idle, check_deadline) refl)
        | inl applies ↦ elim (Bool-cases (L.after (api.now s.server).0 (api.unix env.deadline))) [
          | inr before ↦
              inr (ground arith, rw (applies, check_deadline) (rw (before, check_deadline) refl))
          | inl after ↦ inl (
            ground arith,
            rw (applies, check_deadline)
                (rw (after, check_deadline)
                  (time_out-TimedOut law env (api.unix env.deadline)
                    (record s { server = (api.now s.server).1 }))),
          )
        ]
      ]
