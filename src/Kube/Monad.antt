-- ===== src/Kube/Monad.antt =====
-- Actions of a controller: the state of the world, and the log of the calls.
use etos.Prelude.{◌≡◌, ◌≢◌, refl, ◌∙◌, ◌⊎◌, inl, inr, List, [], ◌∷◌, ◌++◌}

pub record Sys (W C : Type 0) : Type 0 where
  -- The API server, the clock and the message bus.
  pub server : W
  -- The calls that change something, last first.
  pub calls : List C

-- A call's result, or its error.
pub data Result (E A : Type 0) : Type 0 where
  ok : A → Result E A
  err : E → Result E A

-- To split on a computed result and keep the equation.
pub Result-cases :
    {E A : Type 0} (r : Result E A) → ((a : A) × (r ≡ ok a)) ⊎ ((e : E) × (r ≡ err e))
Result-cases (ok a) = inl (a, refl)
Result-cases (err e) = inr (e, refl)

abbrev pub M : Type 0 → Type 0 → Type 0 → Type 0
M W C A = Sys W C → A × Sys W C

module _ {W C A B : Type 0} where
  infixl 10 ◌>>=◌
  abbrev pub ◌>>=◌ : M W C A → (A → M W C B) → M W C B
  ◌>>=◌ m f s = f (m s).0 (m s).1

module _ {W C A : Type 0} where
  abbrev pub pure : A → M W C A
  pure a s = (a, s)

  -- A call that only reads.
  abbrev pub ask : (W → A × W) → M W C A
  ask f s = ((f s.server).0, record s { server = (f s.server).1 })

  -- A call that changes something: it is logged.
  abbrev pub tell : C → (W → A × W) → M W C A
  tell c f s = ((f s.server).0, record { server = (f s.server).1; calls = c ∷ s.calls })

-- The same for results alone.
abbrev pub and_then : {E A B : Type 0} → Result E A → (A → Result E B) → Result E B
and_then (ok a) f = f a
and_then (err e) f = err e

abbrev pub then_ok :
    {W C E A B : Type 0} → Result E A → (A → M W C (Result E B)) → M W C (Result E B)
then_ok (err e) f = pure (err e)
then_ok (ok a) f = f a

-- What goes on with the value of a result, and stops at its error.
infixl 10 ◌>>?◌
abbrev pub ◌>>?◌ :
    {W C E A B : Type 0} → M W C (Result E A) → (A → M W C (Result E B)) → M W C (Result E B)
m >>? f = m >>= λ r. then_ok r f

-- An action that makes no call that changes something.
abbrev pub IsQuiet : {W C A : Type 0} → M W C A → Type 0
IsQuiet {W} {C} m = (s : Sys W C) → (m s).1.calls ≡ s.calls

module _ {W C E A B : Type 0} where
  then_ok-IsQuiet :
      (r : Result E A) (f : A → M W C (Result E B))
      → ((a : A) → IsQuiet (f a))
      → IsQuiet (then_ok r f)
  then_ok-IsQuiet (ok a) f qf s = qf a s
  then_ok-IsQuiet (err e) f qf s = refl

  pub >>?-IsQuiet :
      (m : M W C (Result E A)) (f : A → M W C (Result E B))
      → IsQuiet m
      → ((a : A) → IsQuiet (f a))
      → IsQuiet (m >>? f)
  >>?-IsQuiet m f qm qf s = then_ok-IsQuiet (m s).0 f qf (m s).1 ∙ qm s

-- The log after those calls, in their order.
abbrev pub logged : {C : Type 0} → List C → List C → List C
logged [] log = log
logged (call ∷ calls) log = logged calls (call ∷ log)

pub logged-append :
    {C : Type 0} (cs ds log : List C) → logged (cs ++ ds) log ≡ logged ds (logged cs log)
logged-append [] ds log = refl
logged-append (c ∷ cs) ds log = logged-append cs ds (c ∷ log)

-- An action after which a function of the log has the same value.
abbrev pub Keeps : {W C A X : Type 0} → (List C → X) → M W C A → Type 0
Keeps {W} {C} f m = (s : Sys W C) → f (m s).1.calls ≡ f s.calls

module _ {W C E A B X : Type 0} (f : List C → X) where
  then_ok-Keeps :
      (r : Result E A) (g : A → M W C (Result E B))
      → ((a : A) → Keeps f (g a))
      → Keeps f (then_ok r g)
  then_ok-Keeps (ok a) g kg s = kg a s
  then_ok-Keeps (err e) g kg s = refl

  pub >>?-Keeps :
      (m : M W C (Result E A)) (g : A → M W C (Result E B))
      → Keeps f m
      → ((a : A) → Keeps f (g a))
      → Keeps f (m >>? g)
  >>?-Keeps m g km kg s = then_ok-Keeps (m s).0 g kg (m s).1 ∙ km s

module _ {W C E A B : Type 0} where
  then_ok-ok :
      (r : Result E A) (f : A → M W C (Result E B)) (s : Sys W C) (b : B)
      → (then_ok r f s).0 ≡ ok b
      → (a : A) × (r ≡ ok a) × (then_ok r f s ≡ f a s)
  then_ok-ok (ok a) f s b h = (a, refl, refl)
  then_ok-ok (err e) f s b h = cc

  -- A chain that gives a value has gone through its first step.
  pub >>?-ok :
      (m : M W C (Result E A)) (f : A → M W C (Result E B)) (s : Sys W C) (b : B)
      → ((m >>? f) s).0 ≡ ok b
      → (a : A) × ((m s).0 ≡ ok a) × ((m >>? f) s ≡ f a (m s).1)
  >>?-ok m f s b h = then_ok-ok (m s).0 f (m s).1 b h

module _ {W C E A B : Type 0} (e : E) where
  then_ok-safe :
      (r : Result E A) (f : A → M W C (Result E B)) (s : Sys W C)
      → r ≢ err e
      → ((a : A) (s' : Sys W C) → (f a s').0 ≢ err e)
      → (then_ok r f s).0 ≢ err e
  then_ok-safe (ok a) f s sr sf h = sf a s h
  then_ok-safe (err x) f s sr sf h = sr (cc h)

  -- A chain of steps that do not end in an error.
  pub >>?-safe :
      (m : M W C (Result E A)) (f : A → M W C (Result E B)) (s : Sys W C)
      → (m s).0 ≢ err e
      → ((a : A) (s' : Sys W C) → (f a s').0 ≢ err e)
      → ((m >>? f) s).0 ≢ err e
  >>?-safe m f s sm sf = then_ok-safe (m s).0 f (m s).1 sm sf
