-- ===== src/Cli/Receiver.antt =====
-- The loopback redirect of src/cimd_proxy/pat_cli.py, `LoopbackReceiver`: which request it keeps.
use cimd_proxy.Prelude.{
  ℕ, String, Bool, true, false, Option, none, some, List, [], ◌∷◌, ◌==◌, if◌then◌else◌, map,
}
use cimd_proxy.Prelude.Dict.{Dict}
use cimd_proxy.Url.{SplitResult}

abbrev pub callback_path : String
callback_path = "/callback"

-- `self._received`
abbrev pub Received : Type 0
Received = Option (Dict String)

-- `_accept`
unfoldable pub accept : Received → Dict String → Bool × Received
accept (some kept) params = (false, some kept)
accept none params = (true, some params)

-- `parse_qs` is a function here: the values of each name, of which there is one at least.
module _ (parse_qs : String → Dict (String × List String)) where
  -- `{k: v[0] for k, v in parse_qs(parts.query).items()}`
  abbrev pub params_of : SplitResult → Dict String
  params_of parts =
      map (λ ((k, v) : String × (String × List String)). (k, v.0)) (parse_qs parts.query)

  -- `do_GET`: the status of the answer, and what has been received after it.
  unfoldable pub do_get : Received → SplitResult → ℕ × Received
  unfolding accept
  do_get received parts =
      if parts.path == callback_path
      then (let (fresh, after) = accept received (params_of parts) in
          (if fresh then 200 else 409, after))
      else (404, received)

  -- Requests one after the other; the lock puts them in an order.
  unfoldable pub serve : Received → List SplitResult → List ℕ × Received
  unfolding do_get
  serve received [] = ([], received)
  serve received (parts ∷ others) =
      let (status, after) = do_get received parts in
      let (statuses, last) = serve after others in (status ∷ statuses, last)
