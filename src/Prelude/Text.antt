-- ===== src/Prelude/Text.antt =====
-- The methods of Python's `str` that the program calls, on native texts.
use Prim.Native.Nat.{ℕ, ◌-◌}
use Prim.Native.Char.{Char, code}
use Prim.Native.String
use Prim.Native.String.{String, char_at}
use mathlib.Core.Path.{◌≡◌, refl}
use mathlib.Core.Bool.{Bool, true, false, ◌&&◌, ◌||◌, not}
use mathlib.Core.List.{List, [], ◌∷◌}
use mathlib.Core.Option.{Option, none, some}
use cimd_proxy.Prelude.Tests.{leb, eqb, if◌then◌else◌}

abbrev cons : Char → String → String
cons c s = String.◌∷◌ c s

abbrev glue : String → String → String
glue s t = String.◌++◌ s t

-- `c` is the character with this number.
abbrev pub is_char : ℕ → Char → Bool
is_char n c = eqb (code c) n

abbrev pub is_digit : Char → Bool
is_digit c = leb b'0' (code c) && leb (code c) b'9'

abbrev pub is_upper : Char → Bool
is_upper c = leb b'A' (code c) && leb (code c) b'Z'

abbrev pub is_lower : Char → Bool
is_lower c = leb b'a' (code c) && leb (code c) b'z'

-- ASCII white space, as `str.strip` and `str.split` read it.
abbrev pub is_space : Char → Bool
is_space c =
    eqb (code c) 32 || (leb 9 (code c) && leb (code c) 13) || (leb 28 (code c) && leb (code c) 31)

-- `str.lower` on ASCII; other characters stay.
abbrev lower_char : Char → Char
lower_char c = if is_upper c then char_at "abcdefghijklmnopqrstuvwxyz" (code c - 65) else c

unfoldable pub lower : String → String
lower String.[] = ""
lower (String.◌∷◌ c s) = cons (lower_char c) (lower s)

-- Some character of the text passes the test.
unfoldable pub any_char : (Char → Bool) → String → Bool
any_char p String.[] = false
any_char p (String.◌∷◌ c s) = p c || any_char p s

unfoldable pub all_chars : (Char → Bool) → String → Bool
all_chars p String.[] = true
all_chars p (String.◌∷◌ c s) = p c && all_chars p s

-- The text before the first character that passes the test, that it was found, and the text
-- behind it: `str.partition` at one character.
unfoldable pub partition : (Char → Bool) → String → String × Bool × String
partition p String.[] = ("", false, "")
partition p (String.◌∷◌ c s) =
    let (before, found, after) = partition p s in
    if p c then ("", true, s) else (cons c before, found, after)

-- The same from the right, `str.rpartition`: all the text is the third part where none passes.
unfoldable pub rpartition : (Char → Bool) → String → String × Bool × String
rpartition p String.[] = ("", false, "")
rpartition p (String.◌∷◌ c s) =
    let (before, found, after) = rpartition p s in
    if found
    then (cons c before, true, after)
    else if p c
    then ("", true, s)
    else ("", false, cons c after)

-- The text from the first character that passes the test on, and the text before it.
unfoldable pub span_until : (Char → Bool) → String → String × String
span_until p String.[] = ("", "")
span_until p (String.◌∷◌ c s) =
    let (before, rest) = span_until p s in if p c then ("", cons c s) else (cons c before, rest)

-- `str.split(sep)` at one character.
unfoldable pub split_at : (Char → Bool) → String → List String
split_at p String.[] = "" ∷ []
split_at p (String.◌∷◌ c s) = push (p c) c (split_at p s)
  where
    push : Bool → Char → List String → List String
    push true d parts = "" ∷ parts
    push false d [] = cons d "" ∷ []
    push false d (x ∷ xs) = cons d x ∷ xs

abbrev drop_empty : List String → List String
drop_empty [] = []
drop_empty (String.[] ∷ xs) = drop_empty xs
drop_empty (String.◌∷◌ c s ∷ xs) = String.◌∷◌ c s ∷ drop_empty xs

-- `str.split()`: the words between runs of white space.
unfoldable pub split_words : String → List String
unfolding split_at
split_words s = drop_empty (split_at is_space s)

unfoldable pub lstrip : (Char → Bool) → String → String
lstrip p String.[] = ""
lstrip p (String.◌∷◌ c s) = let rest = lstrip p s in if p c then rest else cons c s

abbrev cons_kept : (Char → Bool) → Char → String → String
cons_kept p c String.[] = if p c then "" else cons c ""
cons_kept p c (String.◌∷◌ d t) = cons c (cons d t)

unfoldable pub rstrip : (Char → Bool) → String → String
rstrip p String.[] = ""
rstrip p (String.◌∷◌ c s) = cons_kept p c (rstrip p s)

unfoldable pub strip : String → String
unfolding lstrip rstrip
strip s = rstrip is_space (lstrip is_space s)

-- `url.rstrip("/")`
abbrev pub rstrip_slash : String → String
rstrip_slash = rstrip (is_char b'/')

-- The text without the characters that pass the test: `url.replace(b, "")`.
unfoldable pub remove_chars : (Char → Bool) → String → String
remove_chars p String.[] = ""
remove_chars p (String.◌∷◌ c s) = let rest = remove_chars p s in if p c then rest else cons c rest

-- `sep.join(parts)`
unfoldable pub join : String → List String → String
join sep [] = ""
join sep (x ∷ []) = x
join sep (x ∷ y ∷ r) = glue x (glue sep (join sep (y ∷ r)))

hex_digit : ℕ → String
hex_digit n = cons (char_at "0123456789abcdef" n) ""

-- One character inside the quotes `q` of a `repr`. Characters beyond ASCII are taken as printable.
repr_char : ℕ → Char → String
repr_char q c =
    if eqb (code c) q || eqb (code c) 92
    then glue "\\" (cons c "")
    else if eqb (code c) 10
    then "\\n"
    else if eqb (code c) 13
    then "\\r"
    else if eqb (code c) 9
    then "\\t"
    else if leb (code c) 31 || eqb (code c) 127
    then glue "\\x" (
        glue (if leb 16 (code c) then (if leb 32 (code c) then "7" else "1") else "0")
          (hex_digit (low (code c))))
    else cons c ""
  where
    low : ℕ → ℕ
    low n = if leb 112 n then n - 112 else if leb 16 n then n - 16 else n

repr_body : ℕ → String → String
repr_body q String.[] = ""
repr_body q (String.◌∷◌ c s) = glue (repr_char q c) (repr_body q s)

-- `f"{s!r}"`: single quotes, or double quotes round a text with single quotes and no double ones.
unfoldable pub repr : String → String
unfolding repr_body repr_char hex_digit any_char
repr s =
    if any_char (is_char 39) s && not (any_char (is_char 34) s)
    then glue "\"" (glue (repr_body 34 s) "\"")
    else glue "'" (glue (repr_body 39 s) "'")

abbrev repr_all : List String → List String
repr_all [] = []
repr_all (x ∷ xs) = repr x ∷ repr_all xs

-- `f"{xs}"` of a list of texts
unfoldable pub repr_list : List String → String
unfolding join
repr_list xs = glue "[" (glue (join ", " (repr_all xs)) "]")

-- `f"{x!r}"` of an optional text
unfoldable pub repr_option : Option String → String
repr_option none = "None"
repr_option (some s) = repr s

quoted :
    (repr "it's" ≡ "\"it's\"")
    × (repr "a\nb" ≡ "'a\\nb'")
    × (repr_list ("a" ∷ "b" ∷ []) ≡ "['a', 'b']")
unfolding repr repr_list
quoted = (refl, refl, refl)

stripped :
    (strip "  a b " ≡ "a b")
    × (rstrip_slash "https://a//" ≡ "https://a")
    × (lower "LocalHost" ≡ "localhost")
unfolding strip rstrip lower
stripped = (refl, refl, refl)

splits :
    (split_words " a  bc " ≡ "a" ∷ "bc" ∷ [])
    × (rpartition (is_char b'@') "a@b@c" ≡ ("a@b", true, "c"))
unfolding split_words rpartition
splits = (refl, refl)
