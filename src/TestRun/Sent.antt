-- ===== src/TestRun/Sent.antt =====
-- What reconcileActiveStatus sends, by the entry of the test run in the table of priorities.
use etos.Prelude.{
  ◌≡◌, ◌⊎◌, refl, sym, subst, Bool, true, false, not, ◌&&◌, ◌||◌, Option, none, some, Bool-cases,
  inl, inr, List, ◌∷◌, if◌then◌else◌, ◌~◌,
}
use etos.Kube.{Condition, Library, IsLawful, condition, is_zero}
use etos.Kube.Monad.{Sys}
use etos.Controller.{set_inconclusive_verdict_if_unset}
use etos.Controller.Reasons.{
  status_active, status_environment, status_suite_runner, reason_failed, reason_timed_out,
}
use etos.TestRun.Types.{TestRun, TestRunApi, Call, updated_status, finish, finish_if, update_status}
use etos.TestRun.Active.{Draft, finish_active, follow_active, reconcile_active_status}
use etos.TestRun.Priority.{by_priority, draft_active-by_priority}

-- The condition that a status update has for a draft.
pub record IsOf {Time : Type 0} (draft : Draft) (found : Option (Condition Time)) : Type 0 where
  pub its : Condition Time
  pub there : found ≡ some its
  pub its_status : its.status ≡ draft.status
  pub its_reason : its.reason ≡ draft.reason
  pub its_message : its.message ≡ draft.message

-- Nothing is known of a test run, and nothing was sent.
pub record NothingKnown {Time Span : Type 0} (draft : Draft) (before after : List (Call Time Span))
    : Type 0 where
  pub its_status : (draft.status ~ "Unknown") ≡ true
  pub quiet : after ≡ before

-- SetStatusCondition has changed something, and one status was sent, whose condition Active is the
-- draft's; it has a completion time exactly if that condition is False.
pub record DraftSent {E Time Span : Type 0} (L : Library E Time) (draft : Draft) (changed : Bool)
    (before after : List (Call Time Span)) : Type 0 where
  pub its_change : changed ≡ true
  pub known : (draft.status ~ "Unknown") ≡ false
  pub sent_run : TestRun Time Span
  pub sent : after ≡ updated_status sent_run ∷ before
  pub its_condition : IsOf draft (L.find_status_condition sent_run.conditions status_active)
  pub ended : is_zero sent_run.completion_time ≡ not (draft.status ~ "False")

-- SetStatusCondition has changed nothing: the condition Active was the draft's before. At most one status was sent, with the conditions as they
-- were and no completion time, and only for a draft that is False.
pub record DraftThere {E Time Span : Type 0} (L : Library E Time) (draft : Draft) (changed : Bool)
    (tr : TestRun Time Span) (before after : List (Call Time Span)) : Type 0 where
  pub its_change : changed ≡ false
  pub known : (draft.status ~ "Unknown") ≡ false
  pub its_condition : IsOf draft (L.find_status_condition tr.conditions status_active)
  pub only_verdict :
      (after ≡ before)
      ⊎ ((tr' : TestRun Time Span) × (after ≡ updated_status tr' ∷ before)
          × (tr'.conditions ≡ tr.conditions)
          × (tr'.completion_time ≡ none)
          × ((draft.status ~ "False") ≡ true))

module _ {W E Time Span : Type 0} (L : Library E Time) (api : TestRunApi W E Time Span) where
  -- The entry of the table for a test run.
  abbrev pub entry : TestRun Time Span → Draft
  entry tr =
      by_priority (L.find_status_condition tr.conditions status_environment)
        (L.find_status_condition tr.conditions status_suite_runner)

  finish_active-updates :
      (tr : TestRun Time Span) (draft : Draft) (cs : List (Condition Time))
      (s : Sys W (Call Time Span))
      → tr.completion_time ≡ none
      → (tr' : TestRun Time Span) × ((finish_active L api tr draft (cs, true) s).1.calls
          ≡ updated_status tr' ∷ s.calls)
        × (tr'.conditions ≡ cs)
        × (is_zero tr'.completion_time ≡ not (draft.status ~ "False"))
  unfolding finish_active finish update_status
  finish_active-updates tr draft cs s unset = elim (Bool-cases (draft.status ~ "False")) [
    | inl over ↦ (
      record tr { conditions = cs; completion_time = some (api.now s.server).0 },
      rw (over, finish_active) refl,
      refl,
      rw over refl,
    )
    | inr runs ↦
        (record tr { conditions = cs }, rw (runs, finish_active) refl, refl, rw (runs, unset) refl)
  ]

  finish_if-kept :
      (a b c : Bool) (tr run : TestRun Time Span) (s : Sys W (Call Time Span))
      → run.conditions ≡ tr.conditions
      → run.completion_time ≡ none
      → ((finish_if {E = E} api (a && b && c) run s).1.calls ≡ s.calls)
        ⊎ ((tr' : TestRun Time Span) × ((finish_if {E = E} api (a && b && c) run s).1.calls
              ≡ updated_status tr' ∷ s.calls)
            × (tr'.conditions ≡ tr.conditions)
            × (tr'.completion_time ≡ none)
            × (a ≡ true))
  unfolding finish finish_if update_status
  finish_if-kept true true true tr run s same unset = inr (run, refl, same, unset, refl)
  finish_if-kept true true false tr run s same unset = inl refl
  finish_if-kept true false c tr run s same unset = inl refl
  finish_if-kept false b c tr run s same unset = inl refl

  -- What a setting of the condition that changed nothing is followed by.
  finish_active-kept :
      (tr : TestRun Time Span) (draft : Draft) (cs : List (Condition Time))
      (s : Sys W (Call Time Span))
      → cs ≡ tr.conditions
      → tr.completion_time ≡ none
      → ((finish_active L api tr draft (cs, false) s).1.calls ≡ s.calls)
        ⊎ ((tr' : TestRun Time Span) × ((finish_active L api tr draft (cs, false) s).1.calls
              ≡ updated_status tr' ∷ s.calls)
            × (tr'.conditions ≡ tr.conditions)
            × (tr'.completion_time ≡ none)
            × ((draft.status ~ "False") ≡ true))
  unfolding finish_active
  finish_active-kept tr draft cs s same unset =
      let verdict = set_inconclusive_verdict_if_unset tr.verdict in
      let failing = (draft.reason ~ reason_failed) || (draft.reason ~ reason_timed_out) in
      let settle = (draft.status ~ "False") && failing in
      finish_if-kept (draft.status ~ "False") failing verdict.1 tr
        (record tr { conditions = cs; verdict = if settle then verdict.0 else tr.verdict }) s same
        unset

  follow_active-set :
      IsLawful L
      → (tr : TestRun Time Span) (s : Sys W (Call Time Span)) (set : List (Condition Time) × Bool)
      → tr.completion_time ≡ none
      → ((entry tr).status ~ "Unknown") ≡ false
      → IsOf (entry tr) (L.find_status_condition set.0 status_active)
      → (set.1 ≡ false → set.0 ≡ tr.conditions)
      → DraftSent L (entry tr) set.1 s.calls (finish_active L api tr (entry tr) set s).1.calls
        ⊎ DraftThere L (entry tr) set.1 tr s.calls (finish_active L api tr (entry tr) set s).1.calls
  follow_active-set law tr s (cs, true) unset known is_set same =
      let (tr', sent, conditions, ended) = finish_active-updates tr (entry tr) cs s unset in
      inl (record {
        its_change = refl;
        known = known;
        sent_run = tr';
        sent = sent;
        its_condition =
            subst (λ cs. IsOf (entry tr) (L.find_status_condition cs status_active))
              (sym conditions) is_set;
        ended = ended;
      })
  follow_active-set law tr s (cs, false) unset known is_set same = inr (record {
    its_change = refl;
    known = known;
    its_condition =
        subst (λ cs. IsOf (entry tr) (L.find_status_condition cs status_active)) (same refl) is_set;
    only_verdict = finish_active-kept tr (entry tr) cs s (same refl) unset;
  })

  -- Does SetStatusCondition with the entry change the conditions?
  abbrev pub entry_changes : TestRun Time Span → Sys W (Call Time Span) → Bool
  entry_changes tr s =
      (L.set_status_condition (api.now s.server).0 tr.conditions
        (condition L status_active (entry tr).status (entry tr).reason (entry tr).message)).1

  -- What reconcileActiveStatus does with a test run that has not completed and has a condition Active.
  -- If the entry of the test run in the table of priorities says that nothing is known, then nothing is
  -- sent. Otherwise, if SetStatusCondition with the entry changes the conditions, then one status is
  -- sent, whose condition Active is the entry's, with a completion time exactly if it is False; and if
  -- not, then the condition Active was the entry's before, and at most one status with the same
  -- conditions is sent, without a completion time and only if the entry is False.
  pub reconcile_active_status-entry :
      IsLawful L
      → (tr : TestRun Time Span) (active : Condition Time) (s : Sys W (Call Time Span))
      → tr.completion_time ≡ none
      → L.find_status_condition tr.conditions status_active ≡ some active
      → NothingKnown (entry tr) s.calls (reconcile_active_status L api tr s).1.calls
        ⊎ (DraftSent L
              (entry tr)
              (entry_changes tr s)
              s.calls
              (reconcile_active_status L api tr s).1.calls
            ⊎ DraftThere L
                (entry tr)
                (entry_changes tr s)
                tr
                s.calls
                (reconcile_active_status L api tr s).1.calls)
  unfolding reconcile_active_status follow_active
  reconcile_active_status-entry law tr active s unset found =
      elim (Bool-cases ((entry tr).status ~ "Unknown")) [
        | inl nothing ↦ inl (record {
          its_status = nothing;
          quiet =
              rw
                (
                  found,
                  draft_active-by_priority L tr.conditions,
                  nothing,
                  reconcile_active_status,
                  follow_active,
                )
                refl;
        })
        | inr known ↦
            let t = (api.now s.server).0 in
            let c =
              condition L status_active (entry tr).status (entry tr).reason (entry tr).message in
            let (d, there, its_status, its_reason, its_message) = law.find-set t tr.conditions c in
            rw
              (
                found,
                draft_active-by_priority L tr.conditions,
                known,
                reconcile_active_status,
                follow_active,
              )
              (inr (
                follow_active-set law tr (record s { server = (api.now s.server).1 })
                  (L.set_status_condition t tr.conditions c) unset known
                  (record {
                    its = d;
                    there = there;
                    its_status = its_status;
                    its_reason = its_reason;
                    its_message = its_message;
                  })
                  (law.set_unchanged t tr.conditions c)))
      ]
