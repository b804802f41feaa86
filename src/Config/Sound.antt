-- ===== src/Config/Sound.antt =====
-- What a configuration that `load_config` of src/cimd_proxy/config.py accepts guarantees.
use mathlib.Core.Path.{subst}
use cimd_proxy.Prelude.{
  ℕ, zero, suc, ◌+◌, ◌≤◌, String, ◌<>◌, ◌≡◌, refl, sym, ap, ◌∙◌, ◌<◌, In, Option-cases, inl, inr,
  Bool, true, false, not, ◌&&◌, ◌||◌, Option, none, some, List, [], ◌∷◌, ◌==◌, arith, any,
  Bool-cases, length, is_truthy, strip, rstrip_slash, starts_with, repr,
}
use cimd_proxy.Prelude.Dict.{lookup}
use cimd_proxy.Prelude.Int.{ℤ, pos, negsuc}
use cimd_proxy.Errors.{ok, >>=-eq-ok, ok-injective}
use cimd_proxy.Config.{ResourceEntry}
use cimd_proxy.Config.Env.{Env, refuse_if, value_or, present, required, positive}
use cimd_proxy.Config.Resources.{
  pat_client, is_url, load_entry, load_entries, resource_index, table_size,
}
use cimd_proxy.Config.Signer.{kids, all_different, assertion_signer}
use cimd_proxy.Assertion.{SigningKey, AssertionSigner, key_with_kid}
use cimd_proxy.Digits.{decimal}

pub refuse_if_sound : (b : Bool) (m : String) → refuse_if b m ≡ ok tt → b ≡ false
refuse_if_sound true m h = absurd (cc h)
refuse_if_sound false m h = refl

present_sound :
    (name : String) (o : Option String) (v : String) → present name o ≡ ok v → is_truthy v ≡ true
unfolding present
present_sound name none v h = absurd (cc h)
present_sound name (some s) v h = elim (Bool-cases (is_truthy (strip s))) [
  | inl full ↦ rw (← (ok-injective (rw full at h))) full
  | inr blank ↦ absurd (cc (rw blank at h))
]

-- A value that the environment has under a name, without the white space round it.
abbrev pub IsGiven : (env : Env) (name value : String) → Type 0
IsGiven env name value = (raw : String) × (lookup name env ≡ some raw) × (value ≡ strip raw)

present_set :
    (env : Env) (name : String) (o : Option String) (v : String)
    → lookup name env ≡ o
    → present name o ≡ ok v
    → IsGiven env name v
unfolding present
present_set env name none v e h = absurd (cc h)
present_set env name (some s) v e h = elim (Bool-cases (is_truthy (strip s))) [
  | inl full ↦ (s, e, sym (ok-injective (rw full at h)))
  | inr blank ↦ absurd (cc (rw blank at h))
]

required_set : (env : Env) (name v : String) → required env name ≡ ok v → IsGiven env name v
unfolding required
required_set env name v h = present_set env name (lookup name env) v refl h

pub required_sound : (env : Env) (name v : String) → required env name ≡ ok v → is_truthy v ≡ true
unfolding required
required_sound env name v h = present_sound name (lookup name env) v h

pub positive_sound : (z : ℤ) (m : String) (n : ℕ) → positive z m ≡ ok n → 1 ≤ n
unfolding positive
positive_sound (pos zero) m n h = absurd (cc h)
positive_sound (pos (suc k)) m n h = rw (← (ok-injective h)) (omega arith)
positive_sound (negsuc k) m n h = absurd (cc h)

-- The entry of an index: two URLs and a client, which are the values of the index's keys, and both
-- parts of the client for the exchange or none.
pub record IsEntry (env : Env) (index : ℕ) (r : ResourceEntry) : Type 0 where
  pub url_set :
      (v : String) × IsGiven env (("RESOURCE_" <> decimal index <> "_") <> "URL") v
      × (r.url ≡ rstrip_slash v)
  pub issuer_set :
      (v : String) × IsGiven env (("RESOURCE_" <> decimal index <> "_") <> "ISSUER") v
      × (r.issuer ≡ rstrip_slash v)
  pub client_set : IsGiven env (("RESOURCE_" <> decimal index <> "_") <> "CLIENT_ID") r.client_id
  pub url_is : is_url r.url ≡ true
  pub issuer_is : is_url r.issuer ≡ true
  pub client : is_truthy r.client_id ≡ true
  pub paired : is_truthy r.pat_client_id ≡ is_truthy r.pat_client_secret

-- The entries of the indices from one on, in order.
abbrev pub AreEntries : (env : Env) (index : ℕ) → List ResourceEntry → Type 0
AreEntries env index [] = Unit
AreEntries env index (r ∷ rs) = IsEntry env index r × AreEntries env (index + 1) rs

pat_client_sound :
    (env : Env) (prefix : String) (p : String × String)
    → pat_client env prefix ≡ ok p
    → is_truthy p.0 ≡ is_truthy p.1
unfolding pat_client
pat_client_sound env prefix p h =
    let id = strip (value_or "" (prefix <> "PAT_CLIENT_ID") env) in
    let secret = strip (value_or "" (prefix <> "PAT_CLIENT_SECRET") env) in
    let (_, both, h1) =
      >>=-eq-ok
        (refuse_if
          ((is_truthy id && not (is_truthy secret)) || (is_truthy secret && not (is_truthy id)))
          (prefix <> "PAT_CLIENT_ID and " <> prefix
            <> "PAT_CLIENT_SECRET are set together or not at all; the JWT Authorization Grant needs a confidential client"))
        _ h in
    let test =
      refuse_if_sound
        ((is_truthy id && not (is_truthy secret)) || (is_truthy secret && not (is_truthy id))) _
        both in
    let same : is_truthy id ≡ is_truthy secret = ground arith in rw (← (ok-injective h1)) same

load_entry_sound :
    (env : Env) (index : ℕ) (r : ResourceEntry) → load_entry env index ≡ ok r → IsEntry env index r
unfolding load_entry
load_entry_sound env index r h =
    let prefix = "RESOURCE_" <> decimal index <> "_" in
    let (_, _, h1) =
      >>=-eq-ok
        (refuse_if (not (any (λ ((k, v) : String × String). starts_with k prefix) env)) (
          "RESOURCE table has a gap at index "
          <> decimal index
          <> "; set higher indices are ignored"))
        _ h in
    let (url, has_url, h2) = >>=-eq-ok (required env (prefix <> "URL")) _ h1 in
    let (issuer, has_issuer, h3) = >>=-eq-ok (required env (prefix <> "ISSUER")) _ h2 in
    let (client, has, h4) = >>=-eq-ok (required env (prefix <> "CLIENT_ID")) _ h3 in
    let (pat, both, h5) = >>=-eq-ok (pat_client env prefix) _ h4 in
    let (_, one, h6) =
      >>=-eq-ok
        (refuse_if (not (is_url (rstrip_slash url)))
          (prefix <> "URL " <> repr (rstrip_slash url) <> " is not a URL"))
        _ h5 in
    let (_, two, h7) =
      >>=-eq-ok
        (refuse_if (not (is_url (rstrip_slash issuer)))
          (prefix <> "ISSUER " <> repr (rstrip_slash issuer) <> " is not a URL"))
        _ h6 in
    let url_ok = refuse_if_sound (not (is_url (rstrip_slash url))) _ one in
    let issuer_ok = refuse_if_sound (not (is_url (rstrip_slash issuer))) _ two in
    subst (IsEntry env index) (ok-injective h7) (record {
      url_set = (url, required_set env (prefix <> "URL") url has_url, refl);
      issuer_set = (issuer, required_set env (prefix <> "ISSUER") issuer has_issuer, refl);
      client_set = required_set env (prefix <> "CLIENT_ID") client has;
      url_is = ground arith;
      issuer_is = ground arith;
      client = required_sound env (prefix <> "CLIENT_ID") client has;
      paired = pat_client_sound env prefix pat both;
    })

pub load_entries_sound :
    (env : Env) (index rounds : ℕ) (rs : List ResourceEntry)
    → load_entries env index rounds ≡ ok rs
    → AreEntries env index rs × (length rs ≡ rounds)
unfolding load_entries
load_entries_sound env index zero rs h = rw (← (ok-injective h)) (tt, refl)
load_entries_sound env index (suc rounds) rs h =
    let (r, first, h1) = >>=-eq-ok (load_entry env index) _ h in
    let (rest, others, h2) = >>=-eq-ok (load_entries env (index + 1) rounds) _ h1 in
    let (good, long) = load_entries_sound env (index + 1) rounds rest others in
    rw (← (ok-injective h2)) ((load_entry_sound env index r first, good), ap suc long)

-- The size of the table lies above each index that a key names.
pub table_size_covers :
    (env : Env) (key value : String) (n : ℕ)
    → In (key, value) env
    → resource_index key ≡ some n
    → n < table_size env
unfolding table_size
table_size_covers [] key value n m e = absurd m
table_size_covers ((k, v) ∷ env) key value n (inl here) e =
    let same : resource_index k ≡ some n =
      ap (λ (p : String × String). resource_index p.0) (sym here) ∙ e in
    rw same (ground arith)
table_size_covers ((k, v) ∷ env) key value n (inr there) e =
    let below = table_size_covers env key value n there e in
    elim (Option-cases (resource_index k)) [
      | inl other ↦ rw other below
      | inr (i, named) ↦ rw named (ground arith)
    ]

-- A signer whose keys differ by name and whose active key is there.
pub record IsSigner (s : AssertionSigner) : Type 0 where
  pub active : (key : SigningKey) × (key_with_kid s.active_kid s.keys ≡ ok key)
  pub different : all_different (kids s.keys) ≡ true

key_there :
    (kid : String) (keys : List SigningKey)
    → any (λ (k : SigningKey). k.kid == kid) keys ≡ true
    → (key : SigningKey) × (key_with_kid kid keys ≡ ok key)
unfolding key_with_kid
key_there kid [] h = absurd (cc h)
key_there kid (k ∷ keys) h = elim (Bool-cases (k.kid == kid)) [
  | inl here ↦ rw here (k, refl)
  | inr other ↦ rw other (key_there kid keys (rw other at h))
]

pub assertion_signer_sound :
    (issuer : String) (keys : List SigningKey) (active : String) (s : AssertionSigner)
    → all_different (kids keys) ≡ true
    → assertion_signer issuer keys active ≡ ok s
    → IsSigner s
unfolding assertion_signer
assertion_signer_sound issuer keys active s different h =
    elim (Bool-cases (any (λ (k : SigningKey). k.kid == active) keys)) [
      | inl there ↦
          subst IsSigner (ok-injective (rw there at h))
            (record { active = key_there active keys there; different = different })
      | inr missing ↦ absurd (cc (rw missing at h))
    ]
