-- ===== src/Jobs/Results/Verdicts.antt =====
-- What the result of the jobs says, from what the containers of their pods say.
use etos.Prelude.{
  ◌≡◌, refl, ◌∙◌, ap, ◌⊎◌, inl, inr, Bool-cases, Bool, true, false, not, ◌&&◌, ◌||◌, none, String,
  List, [], ◌∷◌, ◌++◌, arith, if◌then◌else◌, ◌~◌, eq_iff,
}
use etos.Kube.{Library}
use etos.Kube.Monad.{Sys, ok}
use etos.Kube.Pod.{Job, Pod}
use etos.Jobs.Types.{
  JobResult, JobApi, conclusion_successful, conclusion_failed, verdict_failed, verdict_none,
}
use etos.Jobs.{JobManager}
use etos.Jobs.Results.{
  merge, find_container, termination_log, describe, merge_containers, latest_pod, merge_jobs,
  finished_jobs, conclude, result,
}

abbrev pub some_failed : List String → Bool
some_failed [] = false
some_failed (x ∷ xs) = let rest = some_failed xs in (x ~ "Failed") || rest

-- The first verdict that is not None, or None.
abbrev pub first_verdict : String → List String → String
first_verdict v [] = v
first_verdict v (x ∷ xs) = let rest = first_verdict x xs in if v ~ verdict_none then rest else v

-- A failed verdict wins; otherwise the first that is not None.
abbrev pub overall : String → List String → String
overall v xs = if some_failed (v ∷ xs) then verdict_failed else first_verdict v xs

module _ {W E Time : Type 0} (L : Library E Time) (api : JobApi W E Time) (pod : Pod Time) where
  -- What the containers of those names say.
  abbrev pub conclusions : List String → List String
  conclusions [] = []
  conclusions (name ∷ names) = (termination_log L api pod name).0.conclusion ∷ conclusions names

  abbrev pub verdicts : List String → List String
  verdicts [] = []
  verdicts (name ∷ names) = (termination_log L api pod name).0.verdict ∷ verdicts names

first_verdict-other :
    (v : String) (xs : List String) → (v ~ verdict_none) ≡ false → first_verdict v xs ≡ v
first_verdict-other v [] h = refl
first_verdict-other v (x ∷ xs) h = rw h

overall-step :
    (v x : String) (xs : List String)
    → overall
        (if (x ~ "Failed") && not (v ~ "Failed") then x else if v ~ verdict_none then x else v)
        xs
      ≡ overall v (x ∷ xs)
overall-step v x xs = elim (Bool-cases (v ~ "Failed")) [
  | inl ev ↦
      let vn : (v ~ verdict_none) ≡ false = rw ((eq_iff v "Failed").0 ev) refl in
      rw (ev, vn) (ground arith)
  | inr ev ↦ elim (Bool-cases (x ~ "Failed")) [
    | inl ex ↦ rw (ev, ex) (ground (arith, ex))
    | inr ex ↦ elim (Bool-cases (v ~ verdict_none)) [
      | inl vn ↦ rw (ev, ex, vn) (ground (arith, ex, ev))
      | inr vn ↦ rw (ev, ex, vn, ev, first_verdict-other v xs vn)
    ]
  ]
]

failed-step :
    (c x : String) (xs : List String)
    → some_failed ((if (x ~ "Failed") && not (c ~ "Failed") then "Failed" else c) ∷ xs)
      ≡ some_failed (c ∷ (x ∷ xs))
failed-step c x xs = ground (arith, eq_iff c "Failed", eq_iff x "Failed", eq_iff "Failed" "Failed")

module _ {W E Time : Type 0} (L : Library E Time) (api : JobApi W E Time) (m : String)
    (pod : Pod Time) where
  merge_containers-conclusion :
      (names : List String) (r : JobResult)
      → ((merge_containers L api m pod names r).conclusion ~ "Failed")
        ≡ some_failed (r.conclusion ∷ conclusions L api pod names)
  unfolding merge_containers merge describe
  merge_containers-conclusion [] r = ground arith
  merge_containers-conclusion (name ∷ names) r =
      merge_containers-conclusion names _
      ∙ failed-step r.conclusion (termination_log L api pod name).0.conclusion
          (conclusions L api pod names)

  merge_containers-verdict :
      (names : List String) (r : JobResult)
      → (merge_containers L api m pod names r).verdict
        ≡ overall r.verdict (verdicts L api pod names)
  unfolding merge_containers merge describe
  merge_containers-verdict [] r = ground (arith, eq_iff r.verdict "Failed")
  merge_containers-verdict (name ∷ names) r =
      merge_containers-verdict names _
      ∙ overall-step r.verdict (termination_log L api pod name).0.verdict (verdicts L api pod names)

conclude-conclusion :
    (r : JobResult)
    → (conclude r).conclusion
      ≡ (if r.conclusion ~ "Failed" then conclusion_failed else conclusion_successful)
unfolding conclude
conclude-conclusion r = elim (Bool-cases (r.conclusion ~ "Failed")) [
  | inl f ↦ rw f ((eq_iff r.conclusion "Failed").0 f)
  | inr f ↦ rw f refl
]

conclude-verdict : (r : JobResult) → (conclude r).verdict ≡ r.verdict
unfolding conclude
conclude-verdict r = ground arith

if_either :
    (b : Bool)
    → ((if b then conclusion_failed else conclusion_successful) ≡ conclusion_successful)
      ⊎ ((if b then conclusion_failed else conclusion_successful) ≡ conclusion_failed)
if_either true = inr refl
if_either false = inl refl

module _ {W C E Time : Type 0} (L : Library E Time) (api : JobApi W E Time) where
  -- Whatever the API server answers, the conclusion is Successful or Failed.
  pub result-conclusion :
      (j : JobManager Time) (name : String) (names : List String) (s : Sys W C)
      → ((result L api j name names s).0.conclusion ≡ conclusion_successful)
        ⊎ ((result L api j name names s).0.conclusion ≡ conclusion_failed)
  unfolding result
  result-conclusion j name names s = rw conclude-conclusion (if_either _)

  merge_jobs-single :
      (m : String) (names : List String) (job : Job Time) (pod : Pod Time) (pods : List (Pod Time))
      (r : JobResult) (s : Sys W C)
      → (api.list_pods job.namespace job.name s.server).0 ≡ ok (pod ∷ pods)
      → (merge_jobs L api m names (job ∷ []) r s).0
        ≡ merge_containers L api m (latest_pod L api pod pods) names r
  unfolding merge_jobs
  merge_jobs-single m names job pod pods r s listed = ground arith

  -- If one job has finished, and the API server lists its pods, then the container statuses of its
  -- latest pod decide: the conclusion is Failed if a container says so (or has no readable termination
  -- log), and Successful otherwise; the verdict is Failed if a container says so, and otherwise the
  -- first in the order of the names that is not None.
  pub result_single :
      (j : JobManager Time) (name : String) (names : List String) (s : Sys W C) (job : Job Time)
      (pod : Pod Time) (pods : List (Pod Time))
      → finished_jobs j ≡ job ∷ []
      → (api.list_pods job.namespace job.name s.server).0 ≡ ok (pod ∷ pods)
      → let latest = latest_pod L api pod pods in
        let order = names ++ name ∷ [] in
        ((result L api j name names s).0.conclusion ≡ (
          if some_failed (conclusions L api latest order)
          then conclusion_failed
          else conclusion_successful))
        × ((result L api j name names s).0.verdict
            ≡ overall verdict_none (verdicts L api latest order))
  unfolding result
  result_single j name names s job pod pods one listed =
      let latest = latest_pod L api pod pods in
      let order = names ++ name ∷ [] in
      let start : JobResult = record {
        conclusion = "";
        verdict = verdict_none;
        description = "";
      } in
      rw (one, merge_jobs-single j.name order job pod pods start s listed)
        (
          conclude-conclusion (merge_containers L api j.name latest order start)
              ∙ ap (λ b. if b then conclusion_failed else conclusion_successful)
                  (merge_containers-conclusion L api j.name latest order start),
          conclude-verdict (merge_containers L api j.name latest order start)
              ∙ merge_containers-verdict L api j.name latest order start,
        )

-- A name that no container of the pod has.
abbrev pub Missing : {Time : Type 0} → Pod Time → String → Type 0
Missing pod name =
    (find_container pod.container_statuses name ≡ none)
    × (find_container pod.init_container_statuses name ≡ none)

module _ {W E Time : Type 0} (L : Library E Time) (api : JobApi W E Time) where
  termination_log-Missing :
      (pod : Pod Time) (name : String)
      → Missing pod name
      → (termination_log L api pod name).0.conclusion ≡ conclusion_failed
  unfolding termination_log
  termination_log-Missing pod name missing = ground arith

  pub some_failed-Missing :
      (pod : Pod Time) (names : List String) (name : String)
      → Missing pod name
      → some_failed (conclusions L api pod (names ++ name ∷ [])) ≡ true
  some_failed-Missing pod [] name missing = rw (termination_log-Missing pod name missing)
  some_failed-Missing pod (x ∷ names) name missing =
      ground (arith, some_failed-Missing pod names name missing)

  -- If one job has finished, the API server lists its pods, and the latest pod has no container of the
  -- name that Result is asked for, then the conclusion is Failed, whatever the other containers say.
  pub result-Missing :
      {C : Type 0} (j : JobManager Time) (name : String) (names : List String) (s : Sys W C)
      (job : Job Time) (pod : Pod Time) (pods : List (Pod Time))
      → finished_jobs j ≡ job ∷ []
      → (api.list_pods job.namespace job.name s.server).0 ≡ ok (pod ∷ pods)
      → Missing (latest_pod L api pod pods) name
      → (result L api j name names s).0.conclusion ≡ conclusion_failed
  result-Missing j name names s job pod pods one listed missing =
      let (concluded, _) = result_single L api j name names s job pod pods one listed in
      concluded
      ∙ ap (λ b. if b then conclusion_failed else conclusion_successful)
          (some_failed-Missing (latest_pod L api pod pods) names name missing)
