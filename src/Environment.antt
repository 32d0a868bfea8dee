-- ===== src/Environment.antt =====
-- internal/controller/environment_controller.go: the reconciler of environments.
--
-- Reconcile is `reconcile_request`, the method reconcile below it is `reconcile`, which gives the
-- environment as it is afterwards, since the code goes on with it. The completion time is a pointer to
-- the transition time of the condition Active, so it follows the change of that condition after it. A
-- `requeue_after` holds the time at which to look again. The registration of watches is left out.
pub mod Types
pub mod Resources
pub mod ReleaseJob
pub mod TimeOut
pub mod Releasing
pub mod Completes
pub mod Completion
pub mod Deadline
mod Tests
use Types.{
  Environment, Kind, Resource, EnvironmentApi, Call, job_log, inactive, update_status,
  set_and_update,
}
use TimeOut.{check_deadline}
use Resources.{or_else, reconcile_environment, release_providers}
use ReleaseJob.{release_job}
use etos.Prelude.{
  ℕ, ◌==◌, Bool, true, false, not, ◌&&◌, Option, none, some, String, ◌<>◌, List, [], ◌∷◌,
  if◌then◌else◌, ◌~◌,
}
use etos.Prelude.Int.{ℤ, pos, negsuc}
use etos.Kube.{Condition, Library, condition, is_zero}
use etos.Kube.Monad.{Sys, Result, ok, err, M, ◌>>=◌, ◌>>?◌, pure, ask, tell}
use etos.Jobs.Types.{JobResult, JobStatus, conclusion_failed}
use etos.Jobs.{JobManager, new_job, status, create, delete}
use etos.Jobs.Results.{result}
use etos.Controller.{
  release_finalizer, Outcome, done, requeue, requeue_after, is_status_reason, set_condition,
}
use etos.Controller.Reasons.{
  status_active, reason_pending, reason_active, reason_failed, reason_timed_out, reason_completed,
}
use etos.Releasers.{iut_releaser_name, log_area_releaser_name, execution_space_releaser_name}

abbrev pub owner_key : String
owner_key = ".metadata.controller.environment"

-- `reason`, or another if it is not set.
abbrev pub reason_or : String → String → String
reason_or reason other = if reason ~ "" then other else reason

module _ {Time : Type 0} where
  abbrev pub manager : Environment Time → JobManager Time
  manager env = new_job owner_key env.metadata.name env.metadata.namespace

  abbrev pub with_finalizers : Environment Time → List String → Environment Time
  with_finalizers env fs =
      let metadata = env.metadata in record env { metadata = record metadata { finalizers = fs } }

module _ {W E Time : Type 0} (L : Library E Time) (api : EnvironmentApi W E Time) where
  -- The reason that stays once the deadline has passed.
  abbrev pub kept_reason : Environment Time → String
  kept_reason env =
      if is_status_reason L env.conditions status_active reason_timed_out
      then reason_timed_out
      else ""

  abbrev pub successful_condition : String → JobResult → Condition Time
  successful_condition reason r =
      if r.conclusion ~ conclusion_failed
      then inactive L api (reason_or reason reason_failed) r.description
      else inactive L api (reason_or reason reason_completed) r.description

  -- The end of an environment, once its resources are released: its status and its jobs.
  pub complete :
      JobManager Time
      → Environment Time
      → Condition Time
      → M W (Call Time) (Result E (Environment Time))
  complete j env c = set_condition L api.now env.conditions c >>= λ set.
      let env' = record env {
        conditions = set.0;
        completion_time = elim (L.find_status_condition set.0 status_active) [
          | none ↦ none
          | some active ↦ some active.last_transition_time
        ];
      } in
      if set.1
      then (update_status L api env' >>= λ r. delete L api.jobs job_log j >>= λ deleted. elim r [
        | ok stored ↦ pure (or_else (L.join none deleted) stored)
        | err e ↦ pure (or_else (L.join (some e) deleted) env')
      ])
      else pure (ok env')

  -- What follows releaseProviders.
  pub after_release :
      JobManager Time
      → Environment Time
      → Condition Time
      → Bool × Option E
      → M W (Call Time) (Result E (Environment Time))
  unfolding complete
  after_release j env c (updated, some e) = pure (err e)
  after_release j env c (true, none) = pure (ok env)
  after_release j env c (false, none) = complete j env c

  -- What follows the attempt to create the release job.
  unfoldable pub after_create :
      Environment Time → String → Option E → M W (Call Time) (Result E (Environment Time))
  after_create env reason none = pure (ok env)
  after_create env reason (some e) =
      if is_status_reason L env.conditions status_active reason_failed
      then pure (err e)
      else (set_condition L api.now env.conditions
            (inactive L api (reason_or reason reason_failed) (L.error_text e))
          >>= λ set.
              if set.1
              then update_status L api (record env { conditions = set.0 })
              else pure (err e))

  -- The switch of reconcile.
  pub follow_release :
      JobStatus
      → JobManager Time
      → Environment Time
      → String
      → M W (Call Time) (Result E (Environment Time))
  unfolding after_release after_create
  follow_release JobStatus.failed j env reason =
      result L api.jobs j env.metadata.name
        (iut_releaser_name ∷ execution_space_releaser_name ∷ log_area_releaser_name ∷ [])
      >>= λ r.
          set_and_update L api env (inactive L api (reason_or reason reason_failed) r.description)
  follow_release JobStatus.successful j env reason =
      result L api.jobs j env.metadata.name [] >>= λ r. release_providers L api env >>= λ released.
      after_release j env (successful_condition reason r) released
  follow_release JobStatus.active j env reason =
      set_and_update L api env
        (inactive L api (reason_or reason reason_active) "Release job is running")
  follow_release JobStatus.none j env reason =
      if is_zero env.metadata.deletion_timestamp
      then pure (ok env)
      else (create L api.jobs job_log (release_job L api env) >>= λ created.
          after_create env reason created)

  unfoldable pub after_status :
      Environment Time
      → Result E JobStatus
      → JobManager Time
      → M W (Call Time) (Result E (Environment Time))
  unfolding follow_release
  after_status env (err e) j = pure (err e)
  after_status env (ok js) j = follow_release js j env (kept_reason env)

  pub reconcile_release : Environment Time → M W (Call Time) (Result E (Environment Time))
  unfolding after_status
  reconcile_release env = status L api.jobs (manager env) >>= λ r. after_status env r.0 r.1

  -- What follows the look at the condition Active.
  unfoldable pub after_find :
      Environment Time → Option (Condition Time) → M W (Call Time) (Result E (Environment Time))
  unfolding reconcile_release
  after_find env none =
      set_condition L api.now env.conditions
        (inactive L api reason_pending "Waiting for environment to become ready")
      >>= λ set. update_status L api (record env { conditions = set.0 })
  after_find env (some _) =
      if is_zero env.metadata.deletion_timestamp
        && not (L.contains_finalizer env.metadata.finalizers release_finalizer)
      then (let env' =
            with_finalizers env (L.add_finalizer env.metadata.finalizers release_finalizer) in
          tell (Call.updated env') (api.update env'))
      else if is_status_reason L env.conditions status_active reason_pending
      then reconcile_environment L api env
      else reconcile_release env

  -- The method reconcile.
  unfoldable pub reconcile : Environment Time → M W (Call Time) (Result E (Environment Time))
  unfolding after_find
  reconcile env = after_find env (L.find_status_condition env.conditions status_active)

  pub after_reconcile : Result E (Environment Time) → M W (Call Time) (Outcome Time × Option E)
  unfolding check_deadline
  after_reconcile (err e) = if L.is_conflict e then pure (requeue, none) else pure (done, some e)
  after_reconcile (ok env) = check_deadline L api env

  -- client.IgnoreNotFound.
  abbrev pub ignore_not_found : E → Option E
  ignore_not_found e = if L.is_not_found e then none else some e

  -- An environment that is complete: its finalizer goes once it is being deleted.
  unfoldable pub finalize : Environment Time → M W (Call Time) (Outcome Time × Option E)
  finalize env =
      if not (is_zero env.metadata.deletion_timestamp)
        && L.contains_finalizer env.metadata.finalizers release_finalizer
      then (let env' =
            with_finalizers env (L.remove_finalizer env.metadata.finalizers release_finalizer).0 in
          tell (Call.updated env') (api.update env') >>= λ r. elim r [
            | ok _ ↦ pure (done, none)
            | err e ↦
                if L.is_conflict e then pure (requeue, none) else pure (done, ignore_not_found e)
          ])
      else pure (done, none)

  unfoldable pub reconcile_existing :
      Environment Time → Option Time → M W (Call Time) (Outcome Time × Option E)
  unfolding finalize reconcile after_reconcile
  reconcile_existing env (some _) = finalize env
  reconcile_existing env none = reconcile env >>= λ r. after_reconcile r

  unfoldable pub reconcile_request : String → String → M W (Call Time) (Outcome Time × Option E)
  unfolding reconcile_existing
  reconcile_request namespace name = ask (api.get namespace name) >>= λ found. elim found [
    | err e ↦ pure (done, ignore_not_found e)
    | ok env ↦ reconcile_existing env env.completion_time
  ]
