-- ===== src/Effects/Silent.antt =====
-- Programs that send no HTTP request, and what is sent by a program that begins with one.
use cimd_proxy.Prelude.{◌≡◌, refl, ap, ◌∙◌, ◌⊎◌, inl, inr, [], Bool, true, false}
use cimd_proxy.Errors.{Exception, Result, ok, err}
use cimd_proxy.Effects.{
  Prog, ret, throw, clock, random, resolve, send, query, ◌>>=◌, attempt, require, World, run, sent,
}
use cimd_proxy.Effects.Laws.{sent-bind, sent_after, run-bind}

module _ {ℓ} {A : Type ℓ} (w : World) where
  pub sent-attempt : (m : Prog A) → sent w (attempt m) ≡ sent w m
  sent-attempt (ret a) = refl
  sent-attempt (throw e) = refl
  sent-attempt (clock k) = sent-attempt (k w.now)
  sent-attempt (random k) = sent-attempt (k w.noise)
  sent-attempt (resolve s k) = sent-attempt (k (w.names s))
  sent-attempt (send q k) = rw (sent-attempt (k (w.upstream q)))
  sent-attempt (query s k) = sent-attempt (k (w.table s))

pub sent-require : (w : World) (b : Bool) (e : Exception) → sent w (require b e) ≡ []
sent-require w true e = refl
sent-require w false e = refl

module _ {ℓ κ} {A : Type ℓ} {B : Type κ} (w : World) where
  after_silent :
      (r : Result A) (f : A → Prog B)
      → (sent_after w r f ≡ []) ⊎ ((a : A) × (r ≡ ok a) × (sent_after w r f ≡ sent w (f a)))
  after_silent (ok a) f = inr (a, refl, refl)
  after_silent (err e) f = inl refl

  -- A silent first part sends nothing and ends the run, or the rest is what is sent.
  pub sent_behind :
      (m : Prog A) (f : A → Prog B)
      → sent w m ≡ []
      → (sent w (m >>= f) ≡ []) ⊎ ((a : A) × (run w m ≡ ok a) × (sent w (m >>= f) ≡ sent w (f a)))
  sent_behind m f silent = elim (after_silent (run w m) f) [
    | inl over ↦ inl (sent-bind w m f ∙ rw silent over)
    | inr (a, e, there) ↦ inr (a, e, sent-bind w m f ∙ rw silent there)
  ]

  pub silent-bind :
      (m : Prog A) (f : A → Prog B)
      → sent w m ≡ []
      → ((a : A) → sent w (f a) ≡ [])
      → sent w (m >>= f) ≡ []
  silent-bind m f first rest = elim (sent_behind m f first) [
    | inl over ↦ over
    | inr (a, _, there) ↦ there ∙ rest a
  ]

  -- What follows a first part that returns.
  pub run_behind :
      (m : Prog A) (f : A → Prog B) {a : A} → run w m ≡ ok a → run w (m >>= f) ≡ run w (f a)
  run_behind m f e = run-bind w m f ∙ rw e

  pub run_behind_err :
      (m : Prog A) (f : A → Prog B) {e : Exception} → run w m ≡ err e → run w (m >>= f) ≡ err e
  run_behind_err m f h = run-bind w m f ∙ rw h

  pub sent_behind_err :
      (m : Prog A) (f : A → Prog B) {e : Exception}
      → sent w m ≡ []
      → run w m ≡ err e
      → sent w (m >>= f) ≡ []
  sent_behind_err m f silent h = sent-bind w m f ∙ rw (silent, h)

  pub sent_behind_ok :
      (m : Prog A) (f : A → Prog B) {a : A}
      → sent w m ≡ []
      → run w m ≡ ok a
      → sent w (m >>= f) ≡ sent w (f a)
  sent_behind_ok m f silent e = sent-bind w m f ∙ rw (silent, e)

-- A test that a returning run has passed.
pub require_bind-eq-ok {κ} :
    {B : Type κ} (w : World) (b : Bool) (e : Exception) (f : Unit {0} → Prog B) {y : B}
    → run w (require b e >>= f) ≡ ok y
    → (b ≡ true) × (run w (f tt) ≡ ok y)
require_bind-eq-ok w true e f h = (refl, h)
require_bind-eq-ok w false e f h = absurd (cc h)

pub require-ok : (w : World) (b : Bool) (e : Exception) → b ≡ true → run w (require b e) ≡ ok tt
require-ok w b e h = ap (λ x. run w (require x e)) h
