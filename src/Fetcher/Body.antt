-- ===== src/Fetcher/Body.antt =====
-- src/cimd_proxy/fetcher.py: the loop that reads a body, and its bounds.
use Prim.Native.String.{len}
use text.Mathlib.TextPositions.{len-append}
use cimd_proxy.Prelude.{
  ℕ, ◌≤◌, String, ◌<>◌, ◌≡◌, refl, sym, inl, inr, false, List, [], ◌∷◌, arith, Bool-cases, ltb,
  if◌then◌else◌,
}
use cimd_proxy.Errors.{Result, ok, err, ok-injective, fetch_error}
use cimd_proxy.Digits.{decimal}

-- The loop over the chunks of the body.
unfoldable pub read_body : ℕ → String → List String → Result String
unfolding decimal
read_body max_bytes buf [] = ok buf
read_body max_bytes buf (chunk ∷ chunks) =
    let more = read_body max_bytes (buf <> chunk) chunks in
    if ltb max_bytes (len (buf <> chunk))
    then err (fetch_error ("CIMD document exceeds max_bytes (" <> decimal max_bytes <> ")"))
    else more

-- The chunks joined behind what was read before.
abbrev pub joined : String → List String → String
joined buf [] = buf
joined buf (chunk ∷ chunks) = joined (buf <> chunk) chunks

len-joined-le : (buf : String) (chunks : List String) → len buf ≤ len (joined buf chunks)
len-joined-le buf [] = omega arith
len-joined-le buf (chunk ∷ chunks) =
    omega (arith, len-joined-le (buf <> chunk) chunks, len-append buf chunk)

-- A body that is accepted is the whole body, and no longer than the limit.
pub read_body_bounds :
    (max_bytes : ℕ) (buf body : String) (chunks : List String)
    → len buf ≤ max_bytes
    → read_body max_bytes buf chunks ≡ ok body
    → (len body ≤ max_bytes) × (body ≡ joined buf chunks)
unfolding read_body
read_body_bounds max_bytes buf body [] small h =
    (rw (ok-injective h) at small, sym (ok-injective h))
read_body_bounds max_bytes buf body (chunk ∷ chunks) small h =
    elim (Bool-cases (ltb max_bytes (len (buf <> chunk)))) [
      | inl big ↦ absurd (ground (arith, big))
      | inr fits ↦
          read_body_bounds max_bytes (buf <> chunk) body chunks (ground arith) (rw fits at h)
    ]

-- A body within the limit is read to its end.
pub read_body_complete :
    (max_bytes : ℕ) (buf : String) (chunks : List String)
    → len (joined buf chunks) ≤ max_bytes
    → read_body max_bytes buf chunks ≡ ok (joined buf chunks)
unfolding read_body
read_body_complete max_bytes buf [] h = refl
read_body_complete max_bytes buf (chunk ∷ chunks) h =
    let fits : ltb max_bytes (len (buf <> chunk)) ≡ false =
      ground (arith, len-joined-le (buf <> chunk) chunks) in
    rw fits (read_body_complete max_bytes (buf <> chunk) chunks h)
