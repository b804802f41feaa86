-- ===== src/Effects/Every.antt =====
-- What holds of every request of a run.
use cimd_proxy.Prelude.{◌≡◌, refl, All}
use cimd_proxy.Errors.{Exception, Result, ok, err}
use cimd_proxy.Effects.{
  Prog, ret, throw, clock, random, resolve, send, query, World, run, sent, Request, ◌>>=◌, catch,
  lift,
}

module _ {ℓ} {A : Type ℓ} (w : World) (Q : Request → Type 0) where
  pub every_bind {κ} :
      {B : Type κ} (m : Prog A) (f : A → Prog B)
      → All Q (sent w m)
      → ((a : A) → run w m ≡ ok a → All Q (sent w (f a)))
      → All Q (sent w (m >>= f))
  every_bind (ret a) f h k = k a refl
  every_bind (throw e) f h k = tt
  every_bind (clock g) f h k = every_bind (g w.now) f h k
  every_bind (random g) f h k = every_bind (g w.noise) f h k
  every_bind (resolve n g) f h k = every_bind (g (w.names n)) f h k
  every_bind (send q g) f (h, hs) k = (h, every_bind (g (w.upstream q)) f hs k)
  every_bind (query s g) f h k = every_bind (g (w.table s)) f h k

  pub every_catch :
      (m : Prog A) (f : Exception → Prog A)
      → All Q (sent w m)
      → ((e : Exception) → All Q (sent w (f e)))
      → All Q (sent w (catch m f))
  every_catch (ret a) f h k = tt
  every_catch (throw e) f h k = k e
  every_catch (clock g) f h k = every_catch (g w.now) f h k
  every_catch (random g) f h k = every_catch (g w.noise) f h k
  every_catch (resolve n g) f h k = every_catch (g (w.names n)) f h k
  every_catch (send q g) f (h, hs) k = (h, every_catch (g (w.upstream q)) f hs k)
  every_catch (query s g) f h k = every_catch (g (w.table s)) f h k

  pub every_lift : (r : Result A) → All Q (sent w (lift r))
  every_lift (ok a) = tt
  every_lift (err e) = tt
