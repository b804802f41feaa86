-- ===== src/Pat/Table/Reach.antt =====
-- The tables that can come after a table: any statements of any handlers, in any interleaving.
use cimd_proxy.Prelude.{◌≡◌, refl}
use cimd_proxy.Effects.{Prog, ret, throw, clock, random, resolve, send, query, World}
use cimd_proxy.Pat.Record.{Time, Statement, instant}
use cimd_proxy.Pat.Table.{Table, execute}
use cimd_proxy.Pat.Table.Play.{play}

pub data Reach (t : Table) : Table → Type 0 where
  here : Reach t t
  next :
      {u v : Table} → Reach t u → (now : Time) (s : Statement) → v ≡ (execute now s u).1 → Reach t v

pub Reach-trans : {t u v : Table} → Reach t u → Reach u v → Reach t v
Reach-trans p here = p
Reach-trans p (next q now s e) = next (Reach-trans p q) now s e

-- The statements of one handler.
pub play-Reach {ℓ} : {A : Type ℓ} (w : World) (t : Table) (m : Prog A) → Reach t (play w t m).1
play-Reach w t (ret a) = here
play-Reach w t (throw e) = here
play-Reach w t (clock k) = play-Reach w t (k w.now)
play-Reach w t (random k) = play-Reach w t (k w.noise)
play-Reach w t (resolve h k) = play-Reach w t (k (w.names h))
play-Reach w t (send q k) = play-Reach w t (k (w.upstream q))
play-Reach w t (query s k) =
    Reach-trans (next here (instant w.now) s refl)
      (play-Reach w (execute (instant w.now) s t).1 (k (execute (instant w.now) s t).0))
