-- ===== src/Config/Resources.antt =====
-- The indexed table of resources: `_load_resources` of src/cimd_proxy/config.py.
use cimd_proxy.Prelude.{
  ℕ, zero, suc, ◌+◌, String, ◌<>◌, Bool, false, not, ◌&&◌, ◌||◌, Option, none, some, List, [], ◌∷◌,
  if◌then◌else◌, ltb, is_truthy, any, strip, rstrip, rstrip_slash, starts_with, partition, is_char,
  is_digit, all_chars, repr,
}
use cimd_proxy.Prelude.Int.{ℤ, pos, parse_int}
use cimd_proxy.Errors.{Result, ok, ◌>>=◌, ◌>>◌}
use cimd_proxy.Config.{ResourceEntry}
use cimd_proxy.Config.Env.{Env, refuse_if, value_or, required}
use cimd_proxy.Digits.{decimal}
use cimd_proxy.Pat.Format.{drop_chars}

-- The index of a key of the resource table, by `int(text)` of a text of digits.
unfoldable pub resource_index : String → Option ℕ
unfolding drop_chars partition all_chars parse_int
resource_index key =
    if starts_with key "RESOURCE_"
    then (let (index, found, tail) = partition (is_char b'_') (drop_chars 9 key) in
        if found && is_truthy index && all_chars is_digit index
        then natural (parse_int index)
        else none)
    else none
  where
    natural : Option ℤ → Option ℕ
    natural (some (pos n)) = some n
    natural _ = none

-- One more than the highest index that is set.
unfoldable pub table_size : Env → ℕ
unfolding resource_index
table_size [] = 0
table_size ((key, value) ∷ env) = larger (resource_index key) (table_size env)
  where
    larger : Option ℕ → ℕ → ℕ
    larger none m = m
    larger (some n) m = if ltb n m then m else suc n

-- `_pat_client`
unfoldable pub pat_client : Env → String → Result (String × String)
unfolding value_or strip
pat_client env prefix =
    let client_id = strip (value_or "" (prefix <> "PAT_CLIENT_ID") env) in
    let client_secret = strip (value_or "" (prefix <> "PAT_CLIENT_SECRET") env) in
    refuse_if
      ((is_truthy client_id && not (is_truthy client_secret))
        || (is_truthy client_secret && not (is_truthy client_id)))
      (prefix <> "PAT_CLIENT_ID and " <> prefix
        <> "PAT_CLIENT_SECRET are set together or not at all; the JWT Authorization Grant needs a confidential client")
    >> ok (client_id, client_secret)

-- `"://" in url`
unfoldable pub is_url : String → Bool
is_url String.[] = false
is_url (String.◌∷◌ c s) = starts_with (String.◌∷◌ c s) "://" || is_url s

-- One entry of the table.
unfoldable pub load_entry : Env → ℕ → Result ResourceEntry
unfolding required value_or pat_client is_url rstrip
load_entry env index = do
  let prefix = "RESOURCE_" <> decimal index <> "_"
  refuse_if (not (any (λ ((k, v) : String × String). starts_with k prefix) env))
      ("RESOURCE table has a gap at index " <> decimal index <> "; set higher indices are ignored")
  url ← required env (prefix <> "URL")
  issuer ← required env (prefix <> "ISSUER")
  client_id ← required env (prefix <> "CLIENT_ID")
  let client_secret = value_or "" (prefix <> "CLIENT_SECRET") env
  pat ← pat_client env prefix
  refuse_if (not (is_url (rstrip_slash url)))
      (prefix <> "URL " <> repr (rstrip_slash url) <> " is not a URL")
  refuse_if (not (is_url (rstrip_slash issuer)))
      (prefix <> "ISSUER " <> repr (rstrip_slash issuer) <> " is not a URL")
  ok (record {
    url = rstrip_slash url;
    issuer = rstrip_slash issuer;
    client_id = client_id;
    client_secret = client_secret;
    pat_client_id = pat.0;
    pat_client_secret = pat.1;
  })

-- The loop of `_load_resources`: so many entries from an index on.
unfoldable pub load_entries : Env → (index rounds : ℕ) → Result (List ResourceEntry)
unfolding load_entry
load_entries env index zero = ok []
load_entries env index (suc rounds) = do
  entry ← load_entry env index
  entries ← load_entries env (index + 1) rounds
  ok (entry ∷ entries)

-- `_load_resources`
unfoldable pub load_resources : Env → Result (List ResourceEntry)
unfolding load_entries table_size
load_resources env = load_entries env 0 (table_size env)
