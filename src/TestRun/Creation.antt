-- ===== src/TestRun/Creation.antt =====
-- Which environment requests createEnvironmentRequests creates.
use mathlib.Core.List.{Perm, Permᴰ, map, perm-append_left_iff}
use mathlib.Core.List.Perm
use etos.Prelude.{
  ℕ, ◌≡◌, refl, sym, subst, ap, Bool, true, not, Option, none, some, Bool-cases, Option-cases, inl,
  inr, String, List, [], ◌∷◌, flatten, if◌then◌else◌, length,
}
use etos.Kube.Monad.{Sys, M, ◌>>=◌, logged}
use etos.Api.{Test, EnvironmentRequest}
use etos.TestRun.Types.{TestRun, TestRunApi, Suite, Cluster, NewRequest, Call, created_request}
use etos.TestRun.Groups.{group_tests}
use etos.TestRun.Grouping.{
  wanted, tests_of, in_groups, Each, pass_by, group_tests-exact, group_tests-Perm,
}
use etos.TestRun.NewRequest.{environment_request, request_spec}
use etos.TestRun.Requests.{
  is_requested, request_name, create_controlled, unless_error, create_groups,
  create_environment_requests,
}

-- The map of groups in another order.
in_groups-Permᴰ :
    (p : String → Bool) {groups others : List (String × List Test)}
    → Permᴰ groups others
    → Perm (in_groups p groups) (in_groups p others)
in_groups-Permᴰ p Permᴰ.nil = Perm.refl []
in_groups-Permᴰ p (Permᴰ.cons {b = b} e h) =
    rw e ((perm-append_left_iff (if p b.0 then b.1 else [])).1 (in_groups-Permᴰ p h))
in_groups-Permᴰ p (Permᴰ.swap {a' = a'} {b' = b'} {l = l} e f) =
    rw (e, f)
      (pass_by (if p a'.0 then a'.1 else []) (if p b'.0 then b'.1 else []) _ (in_groups p l)
        (Perm.refl _))
in_groups-Permᴰ p (Permᴰ.trans h k) = Perm.trans (in_groups-Permᴰ p h) (in_groups-Permᴰ p k)

Each-Permᴰ : {A : Type 0} (P : A → Type 0) {xs ys : List A} → Permᴰ xs ys → Each P ys → Each P xs
Each-Permᴰ P Permᴰ.nil t = tt
Each-Permᴰ P (Permᴰ.cons e h) (y, ys) = (subst P (sym e) y, Each-Permᴰ P h ys)
Each-Permᴰ P (Permᴰ.swap e f) (y, (z, zs)) = (subst P (sym e) z, (subst P (sym f) y, zs))
Each-Permᴰ P (Permᴰ.trans h k) t = Each-Permᴰ P h (Each-Permᴰ P k t)

-- The requests that were created for groups: no error, one for each group of a wanted test runner.
record AreCreated {Time Span : Type 0} (p : String → Bool) (P : String × List Test → Type 0)
    (groups : List (String × List Test)) (before after : List (Call Time Span)) : Type 0 where
  requests : List NewRequest
  its_groups :
      Each (λ (n : NewRequest). P (n.spec.providers.test_runner_image, n.spec.tests)) requests
  its_tests : flatten (map (λ (n : NewRequest). n.spec.tests) requests) ≡ in_groups p groups
  sent : after ≡ logged (map created_request requests) before

module _ {W E Time Span : Type 0} (api : TestRunApi W E Time Span) (suite : Suite)
    (requests : List (EnvironmentRequest Time)) (tr : TestRun Time Span) (cluster : Cluster)
    (indices : List (String × ℕ)) (amount : ℕ) (P : String × List Test → Type 0) where
  -- A test runner that no request is there for.
  abbrev missing : String → Bool
  missing runner = not (is_requested api requests suite.name runner)

  -- A group more, whose request was sent.
  one_more :
      (runner : String) (tests : List Test) (groups : List (String × List Test)) (n : NewRequest)
      {before after : List (Call Time Span)}
      → missing runner ≡ true
      → P (n.spec.providers.test_runner_image, n.spec.tests)
      → n.spec.tests ≡ tests
      → AreCreated missing P groups (created_request n ∷ before) after
      → AreCreated missing P ((runner, tests) ∷ groups) before after
  unfolding flatten
  one_more runner tests groups n new p same c = record {
    requests = n ∷ c.requests;
    its_groups = (p, c.its_groups);
    its_tests = rw new (cc (same, c.its_tests));
    sent = c.sent;
  }

  -- The same for the creation, which may fail.
  one_created :
      (runner : String) (tests : List Test) (groups : List (String × List Test)) (n : NewRequest)
      (rest : M W (Call Time Span) (Option E)) (s : Sys W (Call Time Span))
      → missing runner ≡ true
      → P (n.spec.providers.test_runner_image, n.spec.tests)
      → n.spec.tests ≡ tests
      → ((s' : Sys W (Call Time Span))
          → (rest s').0 ≡ none
          → AreCreated missing P groups s'.calls (rest s').1.calls)
      → ((create_controlled api tr n >>= λ e. unless_error api e rest) s).0 ≡ none
      → AreCreated missing P
          ((runner, tests) ∷ groups)
          s.calls
          ((create_controlled api tr n >>= λ e. unless_error api e rest) s).1.calls
  unfolding create_controlled unless_error
  one_created runner tests groups n rest s new p same more h =
      let after : Sys W (Call Time Span) = record {
        server = (api.create_request n s.server).1;
        calls = created_request n ∷ s.calls;
      } in
      let go =
        λ (r : Option E × Sys W (Call Time Span)) (step : create_controlled api tr n s ≡ r)
            (end : (unless_error api r.0 rest r.1).0 ≡ none
              → AreCreated missing P ((runner, tests) ∷ groups) s.calls
                  (unless_error api r.0 rest r.1).1.calls).
          subst
            (λ (x : Option E × Sys W (Call Time Span)).
              (unless_error api x.0 rest x.1).0 ≡ none
              → AreCreated missing P ((runner, tests) ∷ groups) s.calls
                  (unless_error api x.0 rest x.1).1.calls)
            (sym step) end h in
      elim (Option-cases (api.control_request tr n)) [
        | inl free ↦ elim (Option-cases (api.create_request n s.server).0) [
          | inl good ↦
              go (none, after)
                (rw (free, create_controlled) (ap (λ (o : Option E). (o, after)) good))
                (λ end. one_more runner tests groups n new p same (more after end))
          | inr (e, bad) ↦
              go (some e, after)
                (rw (free, create_controlled) (ap (λ (o : Option E). (o, after)) bad)) (λ end. cc)
        ]
        | inr (e, bad) ↦ go (some e, s) (rw (bad, create_controlled) refl) (λ end. cc)
      ]

  create_groups-AreCreated :
      (groups : List (String × List Test)) (s : Sys W (Call Time Span))
      → Each P groups
      → (create_groups api suite requests tr cluster indices amount groups s).0 ≡ none
      → AreCreated missing P groups s.calls
          (create_groups api suite requests tr cluster indices amount groups s).1.calls
  unfolding create_groups environment_request request_spec flatten
  create_groups-AreCreated [] s ps h = record {
    requests = [];
    its_groups = tt;
    its_tests = refl;
    sent = refl;
  }
  create_groups-AreCreated ((runner, tests) ∷ groups) s (p, ps) h =
      elim (Bool-cases (is_requested api requests suite.name runner)) [
        | inl there ↦
            let c = create_groups-AreCreated groups s ps (rw (there, create_groups) at h) in
            rw (there, create_groups)
              (record {
                requests = c.requests;
                its_groups = c.its_groups;
                its_tests = rw there c.its_tests;
                sent = c.sent;
              })
        | inr new ↦
            let made =
              environment_request api (request_name api suite indices amount runner) runner cluster
                tr tests suite.dataset s in
            rw (new, create_groups)
              (one_created runner tests groups made.0
                (create_groups api suite requests tr cluster indices amount groups) made.1
                (rw new refl) p refl (λ s' end. create_groups-AreCreated groups s' ps end)
                (rw (new, create_groups) at h))
      ]

module _ {W E Time Span : Type 0} (api : TestRunApi W E Time Span) where
  -- If createEnvironmentRequests succeeds, then the tests of the requests that it has created are
  -- exactly the tests of the suite whose test runner no listed request of the suite was there for, and
  -- each of those requests has exactly the tests of the suite that its own test runner runs, in their
  -- order. The order in which a map is gone through is any order.
  pub create_environment_requests-Perm :
      (suite : Suite) (requests : List (EnvironmentRequest Time)) (tr : TestRun Time Span)
      (cluster : Cluster) (s : Sys W (Call Time Span))
      → ((groups : List (String × List Test)) (w : W) → Permᴰ (api.range groups w).0 groups)
      → (create_environment_requests api suite requests tr cluster s).0 ≡ none
      → (news : List NewRequest) × ((create_environment_requests api suite requests tr cluster
            s).1.calls
          ≡ logged (map created_request news) s.calls)
        × Perm
            (flatten (map (λ (n : NewRequest). n.spec.tests) news))
            (wanted (λ r. not (is_requested api requests suite.name r)) suite.tests)
        × Each
            (λ (n : NewRequest).
              n.spec.tests ≡ tests_of n.spec.providers.test_runner_image suite.tests)
            news
  unfolding create_environment_requests
  create_environment_requests-Perm suite requests tr cluster s ranges h =
      let grouped = group_tests suite.tests [] [] 0 in
      let ranged = ranges grouped.0 s.server in
      let p : String → Bool = λ r. not (is_requested api requests suite.name r) in
      let c =
        create_groups-AreCreated api suite requests tr cluster grouped.1 (length grouped.0)
          (λ g. g.1 ≡ tests_of g.0 suite.tests) (api.range grouped.0 s.server).0
          (record s { server = (api.range grouped.0 s.server).1 })
          (Each-Permᴰ _ ranged (group_tests-exact suite.tests).1) h in
      (
        c.requests,
        c.sent,
        rw c.its_tests (Perm.trans (in_groups-Permᴰ p ranged) (group_tests-Perm p suite.tests)),
        c.its_groups,
      )
