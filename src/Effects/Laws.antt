-- ===== src/Effects/Laws.antt =====
-- How `run` and `sent` go through a bind and a `try`.
use cimd_proxy.Prelude.{◌≡◌, refl, sym, ◌∙◌, List, [], ◌++◌}
use cimd_proxy.Errors
use cimd_proxy.Errors.{Exception, Result, ok, err}
use cimd_proxy.Effects.{
  Prog, ret, throw, clock, random, resolve, send, query, ◌>>=◌, catch, attempt, lift, World, run,
  sent, Request,
}

module _ {ℓ κ} {A : Type ℓ} {B : Type κ} (w : World) where
  pub run-bind :
      (m : Prog A) (f : A → Prog B) → run w (m >>= f) ≡ Errors.◌>>=◌ (run w m) (λ a. run w (f a))
  run-bind (ret a) f = refl
  run-bind (throw e) f = refl
  run-bind (clock k) f = run-bind (k w.now) f
  run-bind (random k) f = run-bind (k w.noise) f
  run-bind (resolve h k) f = run-bind (k (w.names h)) f
  run-bind (send q k) f = run-bind (k (w.upstream q)) f
  run-bind (query s k) f = run-bind (k (w.table s)) f

  -- The requests of the rest, if the first part returns.
  abbrev pub sent_after : Result A → (A → Prog B) → List Request
  sent_after (ok a) f = sent w (f a)
  sent_after (err e) f = []

  pub sent-bind :
      (m : Prog A) (f : A → Prog B) → sent w (m >>= f) ≡ sent w m ++ sent_after (run w m) f
  sent-bind (ret a) f = refl
  sent-bind (throw e) f = refl
  sent-bind (clock k) f = sent-bind (k w.now) f
  sent-bind (random k) f = sent-bind (k w.noise) f
  sent-bind (resolve h k) f = sent-bind (k (w.names h)) f
  sent-bind (send q k) f = rw (sent-bind (k (w.upstream q)) f)
  sent-bind (query s k) f = sent-bind (k (w.table s)) f

module _ {ℓ} {A : Type ℓ} (w : World) where
  abbrev pub caught : Result A → (Exception → Prog A) → Result A
  caught (ok a) h = ok a
  caught (err e) h = run w (h e)

  pub run-catch : (m : Prog A) (h : Exception → Prog A) → run w (catch m h) ≡ caught (run w m) h
  run-catch (ret a) h = refl
  run-catch (throw e) h = refl
  run-catch (clock k) h = run-catch (k w.now) h
  run-catch (random k) h = run-catch (k w.noise) h
  run-catch (resolve s k) h = run-catch (k (w.names s)) h
  run-catch (send q k) h = run-catch (k (w.upstream q)) h
  run-catch (query s k) h = run-catch (k (w.table s)) h

  pub run-lift : (r : Result A) → run w (lift r) ≡ r
  run-lift (ok a) = refl
  run-lift (err e) = refl

module _ {ℓ} {A : Type ℓ} (w : World) where
  pub run-attempt : (m : Prog A) → run w (attempt m) ≡ ok (run w m)
  run-attempt (ret a) = refl
  run-attempt (throw e) = refl
  run-attempt (clock k) = run-attempt (k w.now)
  run-attempt (random k) = run-attempt (k w.noise)
  run-attempt (resolve s k) = run-attempt (k (w.names s))
  run-attempt (send q k) = run-attempt (k (w.upstream q))
  run-attempt (query s k) = run-attempt (k (w.table s))

module _ {ℓ κ} {A : Type ℓ} {B : Type κ} (w : World) where
  -- Inversion of a run that returns.
  pub bind-eq-ok :
      (m : Prog A) (f : A → Prog B) {b : B}
      → run w (m >>= f) ≡ ok b
      → (a : A) × (run w m ≡ ok a) × (run w (f a) ≡ ok b)
  bind-eq-ok m f h = Errors.>>=-eq-ok (run w m) (λ a. run w (f a)) (sym (run-bind w m f) ∙ h)

  pub lift_bind-eq-ok :
      (m : Result A) (f : A → Prog B) {b : B}
      → run w (lift m >>= f) ≡ ok b
      → (a : A) × (m ≡ ok a) × (run w (f a) ≡ ok b)
  lift_bind-eq-ok (ok a) f h = (a, refl, h)
  lift_bind-eq-ok (err e) f h = absurd (cc h)

module _ {ℓ κ} {A : Type ℓ} {B : Type κ} (w : World) where
  -- The requests behind a part that asks nothing.
  pub sent-ok :
      (r : Result A) (f : A → Prog B) {a : A} → r ≡ ok a → sent w (lift r >>= f) ≡ sent w (f a)
  sent-ok r f e = rw e

  pub sent-err :
      (r : Result A) (f : A → Prog B) {x : Exception} → r ≡ err x → sent w (lift r >>= f) ≡ []
  sent-err r f e = rw e

pub sent-lift {ℓ} : {A : Type ℓ} (w : World) (r : Result A) → sent w (lift r) ≡ []
sent-lift w (ok a) = refl
sent-lift w (err e) = refl

pub ruleset run_laws = (run-bind, run-catch, run-lift, run-attempt)
