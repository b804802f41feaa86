-- ===== src/Effects.antt =====
-- What a request handler asks of the world outside the process, as a tree: the clock, the random
-- source, name resolution, an HTTP request, a statement on the token table. A handler is a value of
-- `Prog`; no answer is assumed. `run` plays a tree in a world that answers by functions, and `sent`
-- lists the HTTP requests that it makes there.
pub mod Laws
pub mod Silent
pub mod Every
use cimd_proxy.Prelude.{ℕ, String, Option, none, some, List, [], ◌∷◌, Bool, true, false}
use cimd_proxy.Prelude.Dict.{Dict}
use cimd_proxy.Errors.{Exception, Result, ok, err}
use cimd_proxy.Json.{Json}
use cimd_proxy.Pat.Record.{Statement, Answer}

pub data Body : Type 0 where
  no_body : Body
  form : Dict String → Body
  json_body : Json → Body

-- `sni_hostname` is the name for TLS where it is not the host of the URL.
pub record Request : Type 0 where
  pub method : String
  pub url : String
  pub headers : Dict String
  pub sni_hostname : Option String
  pub body : Body

-- A complete answer: the status, the `Cache-Control` header, the body in the chunks in which it
-- arrives, and the body as JSON where it is JSON.
pub record Response : Type 0 where
  pub status_code : ℕ
  pub cache_control : Option String
  pub chunks : List String
  pub json : Option Json

-- `failed` is an `httpx.HTTPError`, with its text.
pub data Reply : Type 0 where
  failed : String → Reply
  answered : Response → Reply

pub data Prog {ℓ} (A : Type ℓ) : Type ℓ where
  ret : A → Prog A
  throw : Exception → Prog A
  clock : (ℕ → Prog A) → Prog A
  random : (ℕ → Prog A) → Prog A
  resolve : String → (Option (List String) → Prog A) → Prog A
  send : Request → (Reply → Prog A) → Prog A
  query : Statement → (Answer → Prog A) → Prog A

infixl 5 ◌>>=◌ ◌>>◌
abbrev pub ◌>>=◌ {ℓ κ} : {A : Type ℓ} {B : Type κ} → Prog A → (A → Prog B) → Prog B
ret a >>= f = f a
throw e >>= f = throw e
clock k >>= f = clock (λ n. k n >>= f)
random k >>= f = random (λ n. k n >>= f)
resolve h k >>= f = resolve h (λ r. k r >>= f)
send q k >>= f = send q (λ r. k r >>= f)
query s k >>= f = query s (λ r. k r >>= f)

abbrev pub ◌>>◌ {ℓ} : {B : Type ℓ} → Prog (Unit {0}) → Prog B → Prog B
m >> k = m >>= λ _. k

-- `try: m except …: handler`; the handler raises again what it does not name.
abbrev pub catch {ℓ} : {A : Type ℓ} → Prog A → (Exception → Prog A) → Prog A
catch (ret a) h = ret a
catch (throw e) h = h e
catch (clock k) h = clock (λ n. catch (k n) h)
catch (random k) h = random (λ n. catch (k n) h)
catch (resolve s k) h = resolve s (λ r. catch (k r) h)
catch (send q k) h = send q (λ r. catch (k r) h)
catch (query s k) h = query s (λ r. catch (k r) h)

-- The exception as a value.
abbrev pub attempt {ℓ} : {A : Type ℓ} → Prog A → Prog (Result A)
attempt (ret a) = ret (ok a)
attempt (throw e) = ret (err e)
attempt (clock k) = clock (λ n. attempt (k n))
attempt (random k) = random (λ n. attempt (k n))
attempt (resolve s k) = resolve s (λ r. attempt (k r))
attempt (send q k) = send q (λ r. attempt (k r))
attempt (query s k) = query s (λ r. attempt (k r))

-- A computation that asks nothing of the world.
abbrev pub lift {ℓ} : {A : Type ℓ} → Result A → Prog A
lift (ok a) = ret a
lift (err e) = throw e

-- `if not test: raise e`
abbrev pub require : Bool → Exception → Prog (Unit {0})
require true e = ret tt
require false e = throw e

abbrev pub time : Prog ℕ
time = clock ret

abbrev pub entropy : Prog ℕ
entropy = random ret

-- A world that answers: the time of a run stands still.
pub record World : Type 0 where
  pub now : ℕ
  pub noise : ℕ
  pub names : String → Option (List String)
  pub upstream : Request → Reply
  pub table : Statement → Answer

module _ {ℓ} {A : Type ℓ} where
  abbrev pub run : World → Prog A → Result A
  run w (ret a) = ok a
  run w (throw e) = err e
  run w (clock k) = run w (k w.now)
  run w (random k) = run w (k w.noise)
  run w (resolve h k) = run w (k (w.names h))
  run w (send q k) = run w (k (w.upstream q))
  run w (query s k) = run w (k (w.table s))

  -- The HTTP requests of a run, in order.
  abbrev pub sent : World → Prog A → List Request
  sent w (ret a) = []
  sent w (throw e) = []
  sent w (clock k) = sent w (k w.now)
  sent w (random k) = sent w (k w.noise)
  sent w (resolve h k) = sent w (k (w.names h))
  sent w (send q k) = q ∷ sent w (k (w.upstream q))
  sent w (query s k) = sent w (k (w.table s))
