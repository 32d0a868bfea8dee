-- ===== src/EnvironmentRequest/Deletion.antt =====
-- The release of a request that is being deleted.
use etos.Prelude.{
  ℕ, ◌+◌, ◌==◌, ◌≡◌, refl, ap, ◌⊎◌, Option, none, some, [], arith, inl, inr, Bool-cases,
}
use etos.Kube.{Library, IsLawful}
use etos.Kube.Monad.{Sys, ok}
use etos.Api.{EnvironmentRequest}
use etos.Controller.{requeue, requeue_after}
use etos.EnvironmentRequest.Types.{
  environments, iuts, log_areas, execution_spaces, EnvironmentRequestApi, Call,
}
use etos.EnvironmentRequest.Release.{settle, delete_kind, finalize, release}
use etos.EnvironmentRequest.Deleting.{listing, delete_kind-empty, delete_kind-nothing}

module _ {W E Time : Type 0} (L : Library E Time) (api : EnvironmentRequestApi W E Time) where
  -- The four listings, each as the API server answers it after the deletions before.
  abbrev pub after_environments : EnvironmentRequest Time → Sys W (Call Time) → Sys W (Call Time)
  after_environments er s = (delete_kind L api er environments s).1

  abbrev pub after_iuts : EnvironmentRequest Time → Sys W (Call Time) → Sys W (Call Time)
  after_iuts er s = (delete_kind L api er iuts (after_environments er s)).1

  abbrev pub after_log_areas : EnvironmentRequest Time → Sys W (Call Time) → Sys W (Call Time)
  after_log_areas er s = (delete_kind L api er log_areas (after_iuts er s)).1

  abbrev pub after_spaces : EnvironmentRequest Time → Sys W (Call Time) → Sys W (Call Time)
  after_spaces er s = (delete_kind L api er execution_spaces (after_log_areas er s)).1

  -- Nothing of the request is left.
  pub record NothingLeft (er : EnvironmentRequest Time) (s : Sys W (Call Time)) : Type 0 where
    pub no_environments : listing L api er environments s ≡ ok []
    pub no_iuts : listing L api er iuts (after_environments er s) ≡ ok []
    pub no_log_areas : listing L api er log_areas (after_iuts er s) ≡ ok []
    pub no_spaces : listing L api er execution_spaces (after_log_areas er s) ≡ ok []

  join_parts : (law : IsLawful L) (a b : Option E) → L.join a b ≡ none → (a ≡ none) × (b ≡ none)
  join_parts law none none h = (refl, refl)
  join_parts law none (some e) h = absurd (law.join_right none e h)
  join_parts law (some e) b h = absurd (law.join_left e b h)

  -- The two arguments of `settle` of four answers.
  abbrev joined : (a b c d : ℕ × Option E) → Option E
  joined a b c d = L.join (L.join (L.join (L.join none a.1) b.1) c.1) d.1

  abbrev total : (a b c d : ℕ × Option E) → ℕ
  total a b c d = a.0 + b.0 + c.0 + d.0

  abbrev IsNothing : ℕ × Option E → Type 0
  IsNothing a = (a.0 ≡ 0) × (a.1 ≡ none)

  joined-IsNothing :
      (law : IsLawful L) (a b c d : ℕ × Option E)
      → joined a b c d ≡ none
      → total a b c d ≡ 0
      → IsNothing a × (IsNothing b × (IsNothing c × IsNothing d))
  joined-IsNothing law a b c d e z =
      let (e3, ed) = join_parts law (L.join (L.join (L.join none a.1) b.1) c.1) d.1 e in
      let (e2, ec) = join_parts law (L.join (L.join none a.1) b.1) c.1 e3 in
      let (e1, eb) = join_parts law (L.join none a.1) b.1 e2 in
      let (_, ea) = join_parts law none a.1 e1 in
      (
        (omega (arith, z), ea),
        ((omega (arith, z), eb), ((omega (arith, z), ec), (omega (arith, z), ed))),
      )

  nothing-joined :
      (law : IsLawful L) (a b c d : ℕ × Option E)
      → a ≡ (0, none)
      → b ≡ (0, none)
      → c ≡ (0, none)
      → d ≡ (0, none)
      → (joined a b c d ≡ none) × (total a b c d ≡ 0)
  nothing-joined law a b c d ea eb ec ed = (
    cc (law.join_none, ap (λ x. x.1) ea, ap (λ x. x.1) eb, ap (λ x. x.1) ec, ap (λ x. x.1) ed),
    rw (ea, eb, ec, ed) refl,
  )

  settle_lem :
      (e : Option E) (n : ℕ) (er : EnvironmentRequest Time) (s : Sys W (Call Time))
      → ((e ≡ none) × ((n ≡ 0) × (settle L api e n er s ≡ finalize L api er s)))
        ⊎ (((e ≡ none) × (n ≡ 0) → ⊥)
            × ((settle L api e n er s ≡ ((requeue, none), s))
                ⊎ (settle L api e n er s ≡ ((requeue_after 5, none), s))))
  unfolding settle
  settle_lem (some e) n er s = inr (λ h. cc, inl refl)
  settle_lem none n er s = elim (Bool-cases (n == 0)) [
    | inl z ↦ inl (refl, (ground arith, ground arith))
    | inr z ↦ inr (λ h. ground arith, inr (ground arith))
  ]

  nothing_left :
      (law : IsLawful L) (er : EnvironmentRequest Time) (s : Sys W (Call Time))
      → joined
          (delete_kind L api er environments s).0
          (delete_kind L api er iuts (after_environments er s)).0
          (delete_kind L api er log_areas (after_iuts er s)).0
          (delete_kind L api er execution_spaces (after_log_areas er s)).0
        ≡ none
      → total
          (delete_kind L api er environments s).0
          (delete_kind L api er iuts (after_environments er s)).0
          (delete_kind L api er log_areas (after_iuts er s)).0
          (delete_kind L api er execution_spaces (after_log_areas er s)).0
        ≡ 0
      → NothingLeft er s
  nothing_left law er s e z =
      let ((za, ea), ((zb, eb), ((zc, ec), (zd, ed)))) = joined-IsNothing law _ _ _ _ e z in
      record {
        no_environments = delete_kind-empty L api er environments s za ea;
        no_iuts = delete_kind-empty L api er iuts (after_environments er s) zb eb;
        no_log_areas = delete_kind-empty L api er log_areas (after_iuts er s) zc ec;
        no_spaces = delete_kind-empty L api er execution_spaces (after_log_areas er s) zd ed;
      }

  -- The release of a request that is being deleted, after the announcement in its status. If the API
  -- server lists nothing of the request any more, then the finalizer is removed. Otherwise the finalizer
  -- is not touched, and the request is looked at again, at once or after five seconds.
  pub release_lem :
      (law : IsLawful L) (er : EnvironmentRequest Time) (s : Sys W (Call Time))
      → (NothingLeft er s × (release L api er s ≡ finalize L api er (after_spaces er s)))
        ⊎ ((NothingLeft er s → ⊥)
            × ((release L api er s ≡ ((requeue, none), after_spaces er s))
                ⊎ (release L api er s ≡ ((requeue_after 5, none), after_spaces er s))))
  unfolding release
  release_lem law er s =
      let r1 = delete_kind L api er environments s in
      let r2 = delete_kind L api er iuts r1.1 in
      let r3 = delete_kind L api er log_areas r2.1 in
      let r4 = delete_kind L api er execution_spaces r3.1 in
      elim (settle_lem (joined r1.0 r2.0 r3.0 r4.0) (total r1.0 r2.0 r3.0 r4.0) er r4.1) [
        | inl (e, (z, done_with)) ↦ inl (nothing_left law er s e z, done_with)
        | inr (more, again) ↦ inr (
          λ left. more (
              nothing-joined law r1.0 r2.0 r3.0 r4.0
                (delete_kind-nothing L api er environments s left.no_environments)
                (delete_kind-nothing L api er iuts (after_environments er s) left.no_iuts)
                (delete_kind-nothing L api er log_areas (after_iuts er s) left.no_log_areas)
                (delete_kind-nothing L api er execution_spaces (after_log_areas er s)
                  left.no_spaces)),
          again,
        )
      ]
