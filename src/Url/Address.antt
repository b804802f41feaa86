-- ===== src/Url/Address.antt =====
-- Python's `ipaddress`, as far as `urlsplit` calls it on a bracketed host: whether a text is an IPv6
-- address, and the `IPvFuture` form.
use cimd_proxy.Prelude.{
  ℕ, suc, ◌-◌, String, Char, code, Bool, true, false, not, ◌&&◌, ◌||◌, List, [], ◌∷◌, ◌≡◌, refl,
  leb, eqb, if◌then◌else◌, is_char, is_digit, is_truthy, all, length, any_char, all_chars,
  partition, split_at,
}
use Prim.Native.String.{count}
use cimd_proxy.Prelude.Int.{ℤ, pos, parse_int}
use cimd_proxy.Prelude.{Option, some}

is_hex : Char → Bool
is_hex c =
    is_digit c
    || (leb b'a' (code c) && leb (code c) b'f')
    || (leb b'A' (code c) && leb (code c) b'F')

-- A hextet: one to four hexadecimal digits.
is_hextet : String → Bool
unfolding is_hex all_chars
is_hextet s = is_truthy s && leb (count s) 4 && all_chars is_hex s

begins_zero : String → Bool
begins_zero String.[] = false
begins_zero (String.◌∷◌ c s) = is_char b'0' c

at_most_255 : Option ℤ → Bool
at_most_255 (some (pos n)) = leb n 255
at_most_255 _ = false

-- An octet of a dotted quad: no leading zero, at most 255.
is_octet : String → Bool
unfolding all_chars begins_zero at_most_255 parse_int
is_octet s =
    is_truthy s
    && all_chars is_digit s
    && leb (count s) 3
    && not (begins_zero s && leb 2 (count s))
    && at_most_255 (parse_int s)

unfoldable pub is_ipv4 : String → Bool
unfolding is_octet split_at
is_ipv4 s = let parts = split_at (is_char b'.') s in eqb (length parts) 4 && all is_octet parts

last : List String → String
last [] = ""
last (x ∷ []) = x
last (x ∷ y ∷ r) = last (y ∷ r)

-- A dotted quad at the end stands for two hextets.
expand_quad : List String → List String
unfolding is_ipv4 any_char
expand_quad [] = []
expand_quad (x ∷ []) =
    if any_char (is_char b'.') x then (if is_ipv4 x then "0" ∷ "0" ∷ [] else "z" ∷ []) else x ∷ []
expand_quad (x ∷ y ∷ r) = x ∷ expand_quad (y ∷ r)

empties : List String → ℕ
empties [] = 0
empties (s ∷ ss) = if is_truthy s then empties ss else suc (empties ss)

-- The parts without the first and the last.
inner : List String → List String
inner [] = []
inner (x ∷ r) = front r
  where
    front : List String → List String
    front [] = []
    front (y ∷ []) = []
    front (y ∷ z ∷ w) = y ∷ front (z ∷ w)

first_empty : List String → Bool
first_empty [] = false
first_empty (x ∷ xs) = not (is_truthy x)

second_empty : List String → Bool
second_empty [] = false
second_empty (x ∷ xs) = first_empty xs

before_last : List String → String
unfolding last inner
before_last xs = last (inner xs)

hextet_or_empty : String → Bool
unfolding is_hextet
hextet_or_empty s = not (is_truthy s) || is_hextet s

-- `_ip_int_from_string` over the parts between the colons: at most one `::`, an empty part at an
-- end only beside it, and eight hextets, or fewer where `::` stands.
valid_parts : List String → Bool
unfolding empties inner first_empty second_empty before_last hextet_or_empty last
valid_parts parts =
    let gaps = empties (inner parts) in
    let full = length parts - empties parts in
    leb 3 (length parts)
    && leb (length parts) 9
    && all hextet_or_empty parts
    && (if eqb gaps 0
        then eqb (length parts) 8 && eqb full 8
        else eqb gaps 1
          && leb full 7
          && (not (first_empty parts) || second_empty parts)
          && (is_truthy (last parts) || not (is_truthy (before_last parts))))

is_ipv6 : String → Bool
unfolding valid_parts expand_quad split_at
is_ipv6 s = valid_parts (expand_quad (split_at (is_char b':') s))

-- `_check_bracketed_host`: `v`, hexadecimal digits, a dot and more; or an IPv6 address, with a zone.
unfoldable pub is_ipv6_host : String → Bool
unfolding is_ipv6 is_hex partition all_chars any_char
is_ipv6_host String.[] = false
is_ipv6_host (String.◌∷◌ c s) =
    let (version, dotted, rest) = partition (is_char b'.') s in
    let (address, zoned, zone) = partition (is_char b'%') (String.◌∷◌ c s) in
    if is_char b'v' c
    then is_truthy version && all_chars is_hex version && dotted && is_truthy rest
    else is_ipv6 address && (not zoned || (is_truthy zone && not (any_char (is_char b'%') zone)))

addresses :
    (is_ipv6_host "::1" ≡ true)
    × (is_ipv6_host "fe80::1%en0" ≡ true)
    × (is_ipv6_host "::ffff:1.2.3.4" ≡ true)
    × (is_ipv6_host "1:2:3:4:5:6:7:8" ≡ true)
    × (is_ipv6_host "::" ≡ true)
    × (is_ipv6_host "1::" ≡ true)
unfolding is_ipv6_host
addresses = (refl, refl, refl, refl, refl, refl)

no_addresses :
    (is_ipv6_host "127.0.0.1" ≡ false)
    × (is_ipv6_host ":::1" ≡ false)
    × (is_ipv6_host "1:2" ≡ false)
    × (is_ipv6_host ":1::2" ≡ false)
    × (is_ipv6_host "g::1" ≡ false)
    × (is_ipv6_host "1::2::3" ≡ false)
unfolding is_ipv6_host
no_addresses = (refl, refl, refl, refl, refl, refl)
