-- ===== src/Pat/Table/Laws.antt =====
-- How `play` goes through a bind, a `try` and what is only computed.
use cimd_proxy.Prelude.{ℕ, ◌≡◌, refl, sym, ap, ◌∙◌, List, Option, String, true, false, Bool}
use cimd_proxy.Errors.{Exception, Result, ok, err}
use cimd_proxy.Effects.{
  Prog, ret, throw, clock, random, resolve, send, query, ◌>>=◌, catch, lift, require, World, run,
  Reply,
}
use cimd_proxy.Pat.Record.{instant}
use cimd_proxy.Pat.Table.{Table, execute}
use cimd_proxy.Pat.Table.Play.{play}

module _ {ℓ κ} {A : Type ℓ} {B : Type κ} (w : World) where
  abbrev pub continue : Result A × Table → (A → Prog B) → Result B × Table
  continue (ok a, t) f = play w t (f a)
  continue (err e, t) f = (err e, t)

  pub play-bind :
      (t : Table) (m : Prog A) (f : A → Prog B) → play w t (m >>= f) ≡ continue (play w t m) f
  play-bind t (ret a) f = refl
  play-bind t (throw e) f = refl
  play-bind t (clock k) f = play-bind t (k w.now) f
  play-bind t (random k) f = play-bind t (k w.noise) f
  play-bind t (resolve h k) f = play-bind t (k (w.names h)) f
  play-bind t (send q k) f = play-bind t (k (w.upstream q)) f
  play-bind t (query s k) f =
      play-bind (execute (instant w.now) s t).1 (k (execute (instant w.now) s t).0) f

  returned :
      (r : Result A) (t : Table) (f : A → Prog B) (b : B) (t' : Table)
      → continue (r, t) f ≡ (ok b, t')
      → (a : A) × (r ≡ ok a) × (play w t (f a) ≡ (ok b, t'))
  returned (ok a) t f b t' h = (a, refl, h)
  returned (err e) t f b t' h = absurd (cc h)

  -- Inversion of a run that returns.
  pub play-returns :
      (t : Table) (m : Prog A) (f : A → Prog B) (b : B) (t' : Table)
      → play w t (m >>= f) ≡ (ok b, t')
      → (a : A) × ((play w t m).0 ≡ ok a) × (play w (play w t m).1 (f a) ≡ (ok b, t'))
  play-returns t m f b t' h =
      returned (play w t m).0 (play w t m).1 f b t' (sym (play-bind t m f) ∙ h)

  pub play_lifted :
      (t : Table) (m : Result A) (f : A → Prog B) (b : B) (t' : Table)
      → play w t (lift m >>= f) ≡ (ok b, t')
      → (a : A) × (m ≡ ok a) × (play w t (f a) ≡ (ok b, t'))
  play_lifted t (ok a) f b t' h = (a, refl, h)
  play_lifted t (err e) f b t' h = absurd (cc h)

  pub play_raised :
      (t : Table) (m : Result A) (f : A → Prog B) (e : Exception)
      → m ≡ err e
      → play w t (lift m >>= f) ≡ (err e, t)
  play_raised t m f e h = ap (λ (r : Result A). play w t (lift r >>= f)) h

module _ {ℓ} {A : Type ℓ} (w : World) where
  abbrev pub played_catch : Result A × Table → (Exception → Prog A) → Result A × Table
  played_catch (ok a, t) h = (ok a, t)
  played_catch (err e, t) h = play w t (h e)

  pub play-catch :
      (t : Table) (m : Prog A) (h : Exception → Prog A)
      → play w t (catch m h) ≡ played_catch (play w t m) h
  play-catch t (ret a) h = refl
  play-catch t (throw e) h = refl
  play-catch t (clock k) h = play-catch t (k w.now) h
  play-catch t (random k) h = play-catch t (k w.noise) h
  play-catch t (resolve s k) h = play-catch t (k (w.names s)) h
  play-catch t (send q k) h = play-catch t (k (w.upstream q)) h
  play-catch t (query s k) h =
      play-catch (execute (instant w.now) s t).1 (k (execute (instant w.now) s t).0) h

-- A computation that asks the table nothing.
abbrev pub Tableless {ℓ} : {A : Type ℓ} → Prog A → Type 0
Tableless (ret a) = Unit
Tableless (throw e) = Unit
Tableless (clock k) = (n : ℕ) → Tableless (k n)
Tableless (random k) = (n : ℕ) → Tableless (k n)
Tableless (resolve h k) = (o : Option (List String)) → Tableless (k o)
Tableless (send q k) = (r : Reply) → Tableless (k r)
Tableless (query s k) = ⊥

-- It leaves the table alone, and gives what it gives in a world of its own.
pub play-run {ℓ} :
    {A : Type ℓ} (w : World) (t : Table) (m : Prog A) → Tableless m → play w t m ≡ (run w m, t)
play-run w t (ret a) h = refl
play-run w t (throw e) h = refl
play-run w t (clock k) h = play-run w t (k w.now) (h w.now)
play-run w t (random k) h = play-run w t (k w.noise) (h w.noise)
play-run w t (resolve s k) h = play-run w t (k (w.names s)) (h (w.names s))
play-run w t (send q k) h = play-run w t (k (w.upstream q)) (h (w.upstream q))
play-run w t (query s k) h = absurd h

module _ {ℓ κ} {A : Type ℓ} {B : Type κ} where
  pub Tableless-bind :
      (m : Prog A) (f : A → Prog B)
      → Tableless m
      → ((a : A) → Tableless (f a))
      → Tableless (m >>= f)
  Tableless-bind (ret a) f h k = k a
  Tableless-bind (throw e) f h k = tt
  Tableless-bind (clock c) f h k = λ n. Tableless-bind (c n) f (h n) k
  Tableless-bind (random c) f h k = λ n. Tableless-bind (c n) f (h n) k
  Tableless-bind (resolve s c) f h k = λ n. Tableless-bind (c n) f (h n) k
  Tableless-bind (send q c) f h k = λ n. Tableless-bind (c n) f (h n) k
  Tableless-bind (query s c) f h k = absurd h

  pub Tableless-lift-bind :
      (r : Result A) (f : A → Prog B) → ((a : A) → Tableless (f a)) → Tableless (lift r >>= f)
  Tableless-lift-bind (ok a) f k = k a
  Tableless-lift-bind (err e) f k = tt

pub Tableless-lift {ℓ} : {A : Type ℓ} (r : Result A) → Tableless (lift r)
Tableless-lift (ok a) = tt
Tableless-lift (err e) = tt

pub Tableless-require : (b : Bool) (e : Exception) → Tableless (require b e)
Tableless-require true e = tt
Tableless-require false e = tt

pub Tableless-require-bind {ℓ} :
    {A : Type ℓ} (b : Bool) (e : Exception) (f : Unit {0} → Prog A)
    → Tableless (f tt)
    → Tableless (require b e >>= f)
Tableless-require-bind true e f h = h
Tableless-require-bind false e f h = tt

pub Tableless-catch {ℓ} :
    {A : Type ℓ} (m : Prog A) (h : Exception → Prog A)
    → Tableless m
    → ((e : Exception) → Tableless (h e))
    → Tableless (catch m h)
Tableless-catch (ret a) h p q = tt
Tableless-catch (throw e) h p q = q e
Tableless-catch (clock k) h p q = λ n. Tableless-catch (k n) h (p n) q
Tableless-catch (random k) h p q = λ n. Tableless-catch (k n) h (p n) q
Tableless-catch (resolve s k) h p q = λ n. Tableless-catch (k n) h (p n) q
Tableless-catch (send r k) h p q = λ n. Tableless-catch (k n) h (p n) q
Tableless-catch (query s k) h p q = absurd p

module _ {ℓ κ} {A : Type ℓ} {B : Type κ} (w : World) where
  -- Inversion of a run that returns, whose first part leaves the table alone.
  pub Tableless-returns :
      (t : Table) (m : Prog A) (f : A → Prog B) (b : B) (t' : Table)
      → Tableless m
      → play w t (m >>= f) ≡ (ok b, t')
      → (a : A) × (run w m ≡ ok a) × (play w t (f a) ≡ (ok b, t'))
  Tableless-returns t m f b t' silent h = returned w (run w m) t f b t' (
      ap (λ (o : Result A × Table). continue w o f) (sym (play-run w t m silent))
      ∙ sym (play-bind w t m f)
      ∙ h)
