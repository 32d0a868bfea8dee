-- ===== src/Environment/TimeOut.antt =====
-- internal/controller/environment_controller.go: the deadline of an environment, at the end of Reconcile.
use etos.Prelude.{◌==◌, Bool, false, not, ◌&&◌, Option, none, some, ◌<>◌, if◌then◌else◌}
use etos.Prelude.Int.{ℤ, pos, negsuc}
use etos.Kube.{Library, is_zero}
use etos.Kube.Monad.{ok, err, M, ◌>>=◌, pure, ask, tell}
use etos.Controller.{Outcome, done, requeue_after, set_condition}
use etos.Controller.Reasons.{reason_timed_out}
use etos.Environment.Types.{Environment, EnvironmentApi, Call, inactive, update_status}

abbrev pub is_unset : ℤ → Bool
is_unset (pos n) = n == 0
is_unset (negsuc n) = false

module _ {W E Time : Type 0} (L : Library E Time) (api : EnvironmentApi W E Time) where
  -- An environment that has exceeded its deadline: the reason, and once it is there, the deletion.
  unfoldable pub time_out : Environment Time → Time → M W (Call Time) (Outcome Time × Option E)
  time_out env deadline =
      set_condition L api.now env.conditions (
        inactive L api reason_timed_out
          ("Environment deadline of " <> (api.time_text deadline <> " exceeded")))
      >>= λ set.
          let env' = record env { conditions = set.0 } in
          if set.1
          then (update_status L api env' >>= λ r.
              pure (done, elim r [ ok _ ↦ none | err e ↦ some e ]))
          else (tell (Call.deleted env') (api.delete env') >>= λ e. pure (done, e))

  -- The end of Reconcile.
  unfoldable pub check_deadline : Environment Time → M W (Call Time) (Outcome Time × Option E)
  unfolding time_out
  check_deadline env =
      if not (is_unset env.deadline) && is_zero env.metadata.deletion_timestamp
      then (ask api.now >>= λ t.
          if L.after t (api.unix env.deadline)
          then time_out env (api.unix env.deadline)
          else pure (requeue_after (api.unix env.deadline), none))
      else pure (done, none)
