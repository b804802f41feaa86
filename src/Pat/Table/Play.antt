-- ===== src/Pat/Table/Play.antt =====
-- A handler on the token table: the statements change it, the rest is answered by a world.
use cimd_proxy.Errors.{Result, ok, err}
use cimd_proxy.Effects.{Prog, ret, throw, clock, random, resolve, send, query, World}
use cimd_proxy.Pat.Record.{instant}
use cimd_proxy.Pat.Table.{Table, execute}

-- The database's clock is the world's.

module _ {ℓ} {A : Type ℓ} where
  abbrev pub play : World → Table → Prog A → Result A × Table
  play w t (ret a) = (ok a, t)
  play w t (throw e) = (err e, t)
  play w t (clock k) = play w t (k w.now)
  play w t (random k) = play w t (k w.noise)
  play w t (resolve h k) = play w t (k (w.names h))
  play w t (send q k) = play w t (k (w.upstream q))
  play w t (query s k) = let (answer, t') = execute (instant w.now) s t in play w t' (k answer)
