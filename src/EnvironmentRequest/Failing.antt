-- ===== src/EnvironmentRequest/Failing.antt =====
-- The mark that prevents a second provider job.
use etos.Prelude.{
  ◌≡◌, refl, sym, ap, true, false, Option, none, some, String, List, [], ◌∷◌, inl, inr, Bool-cases,
  eq_iff,
}
use etos.Kube.{Condition, Library, IsLawful, condition, is_zero}
use etos.Kube.Monad.{Sys}
use etos.Jobs.{create}
use etos.Api.{EnvironmentRequest}
use etos.Controller.{is_status_reason}
use etos.Controller.Reasons.{status_ready, reason_starting}
use etos.EnvironmentRequest.Types.{
  EnvironmentRequestApi, Call, updated_status, job_log, set_and_update,
}
use etos.EnvironmentRequest.ProviderJob.{environment_provider_job}
use etos.EnvironmentRequest.{after_create, start_provider}

-- The status update that was sent last has that reason in the condition Ready.
abbrev pub Recorded : {E Time : Type 0} → Library E Time → String → List (Call Time) → Type 0
Recorded L reason [] = ⊥
Recorded L reason (updated_status er ∷ calls) =
    is_status_reason L er.conditions status_ready reason ≡ true
Recorded L reason (call ∷ calls) = ⊥

module _ {E Time : Type 0} (L : Library E Time) (law : IsLawful L) where
  pub is_status_reason-set :
      (t : Time) (cs : List (Condition Time)) (c : Condition Time)
      → is_status_reason L (L.set_status_condition t cs c).0 c.kind c.reason ≡ true
  unfolding is_status_reason
  is_status_reason-set t cs c =
      let (d, found, _, reason, _) = law.find-set t cs c in
      rw (found, is_status_reason) ((eq_iff d.reason c.reason).1 reason)

  -- A condition that does not have the reason yet is changed by setting it.
  pub set-changed :
      (t : Time) (cs : List (Condition Time)) (c : Condition Time)
      → is_status_reason L cs c.kind c.reason ≡ false
      → (L.set_status_condition t cs c).1 ≡ true
  set-changed t cs c fresh = elim (Bool-cases (L.set_status_condition t cs c).1) [
    | inl yes_changed ↦ yes_changed
    | inr same ↦
        let e = law.set_unchanged t cs c same in
        cc (is_status_reason-set t cs c, ap (λ x. is_status_reason L x c.kind c.reason) e)
  ]

module _ {W E Time : Type 0} (L : Library E Time) (api : EnvironmentRequestApi W E Time) where
  set_and_update-Recorded :
      (law : IsLawful L) (er : EnvironmentRequest Time) (c : Condition Time) (s : Sys W (Call Time))
      → c.kind ≡ status_ready
      → is_status_reason L er.conditions c.kind c.reason ≡ false
      → Recorded L c.reason (set_and_update L api er c s).1.calls
  unfolding set_and_update
  set_and_update-Recorded law er c s kind fresh =
      let t = api.now s.server in
      let changed = set-changed L law t.0 er.conditions c fresh in
      let set = is_status_reason-set L law t.0 er.conditions c in
      rw (changed, set_and_update)
        (rw
          (ap (λ k. is_status_reason L (L.set_status_condition t.0 er.conditions c).0 k c.reason)
            (sym kind))
          set)

  after_create-Recorded :
      (law : IsLawful L) (er : EnvironmentRequest Time) (e : Option E) (s : Sys W (Call Time))
      → e ≡ none
      → is_status_reason L er.conditions status_ready reason_starting ≡ false
      → Recorded L reason_starting (after_create L api er e s).1.calls
  unfolding after_create
  after_create-Recorded law er none s created fresh =
      set_and_update-Recorded law er
        (condition L status_ready "False" reason_starting "Environment provider job created") s refl
        fresh
  after_create-Recorded law er (some e) s created fresh = cc

  -- If the job of a request is created, then the call that is sent after it is a status whose condition
  -- Ready has the reason Starting: the request was not being deleted and did not have that reason yet.
  pub start_provider-Recorded :
      (law : IsLawful L) (er : EnvironmentRequest Time) (s : Sys W (Call Time))
      → is_zero er.metadata.deletion_timestamp ≡ true
      → is_status_reason L er.conditions status_ready reason_starting ≡ false
      → (create L api.jobs job_log (environment_provider_job L api er) s).0 ≡ none
      → Recorded L reason_starting (start_provider L api er s).1.calls
  unfolding start_provider
  start_provider-Recorded law er s kept fresh created =
      let made = create L api.jobs job_log (environment_provider_job L api er) s in
      rw (kept, start_provider)
        (rw (fresh, start_provider) (after_create-Recorded law er made.0 made.1 created fresh))
