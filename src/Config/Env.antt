-- ===== src/Config/Env.antt =====
-- The parsers of the environment of src/cimd_proxy/config.py.
use Prim.Native.String.{char_at}
use cimd_proxy.Prelude.{
  ℕ, suc, ◌-◌, String, ◌<>◌, Char, code, Bool, true, false, Option, none, some, [], ◌∷◌,
  if◌then◌else◌, is_truthy, contains, join, lower, strip, split_words, repr, is_lower,
}
use cimd_proxy.Prelude.Dict.{Dict, lookup}
use cimd_proxy.Prelude.Int.{ℤ, pos, parse_int}
use cimd_proxy.Errors.{Result, ok, err, config_error}

-- The environment: a mapping from names to values.
abbrev pub Env : Type 0
Env = Dict String

abbrev pub config_refused {ℓ} : {A : Type ℓ} → String → Result A
config_refused m = err (config_error m)

abbrev pub refuse_if : Bool → String → Result (Unit {0})
refuse_if true m = config_refused m
refuse_if false m = ok tt

-- `env.get(name, default)`
unfoldable pub value_or : String → String → Env → String
unfolding lookup
value_or default name env = or_default (lookup name env)
  where
    or_default : Option String → String
    or_default none = default
    or_default (some v) = v

-- A value that is set and not blank, without the white space round it.
unfoldable pub present : String → Option String → Result String
unfolding strip
present name none = config_refused (name <> " is required")
present name (some v) =
    if is_truthy (strip v) then ok (strip v) else config_refused (name <> " is required")

-- `_required`
unfoldable pub required : Env → String → Result String
unfolding present lookup
required env name = present name (lookup name env)

-- `_int`
unfoldable pub int_of : String → String → Result ℤ
unfolding parse_int
int_of raw name = parsed (parse_int raw)
  where
    parsed : Option ℤ → Result ℤ
    parsed (some n) = ok n
    parsed none = config_refused (name <> " must be an integer, got " <> repr raw)

-- `_bool`
unfoldable pub bool_of : String → String → Result Bool
unfolding lower strip
bool_of raw name =
    let lowered = lower (strip raw) in
    if contains ("true" ∷ "1" ∷ "yes" ∷ "on" ∷ []) lowered
    then ok true
    else if contains ("false" ∷ "0" ∷ "no" ∷ "off" ∷ "" ∷ []) lowered
    then ok false
    else config_refused (name <> " must be a boolean, got " <> repr raw)

-- A positive integer; other numbers are refused with the message.
unfoldable pub positive : ℤ → String → Result ℕ
positive (pos (suc n)) message = ok (suc n)
positive _ message = config_refused message

-- `_parse_scope_string`
unfoldable pub parse_scope_string : String → String
unfolding split_words join
parse_scope_string raw = join " " (split_words raw)

-- `value.strip() or default`
abbrev pub or_default : String → String → String
or_default s default = if is_truthy s then s else default

unfoldable pub upper_char : Char → String
upper_char c = if is_lower c then shifted (code c) else String.◌∷◌ c ""
  where
    shifted : ℕ → String
    shifted n = String.◌∷◌ (char_at "ABCDEFGHIJKLMNOPQRSTUVWXYZ" (n - b'a')) ""

-- `str.upper` on ASCII; other characters stay.
unfoldable pub upper : String → String
unfolding upper_char
upper String.[] = ""
upper (String.◌∷◌ c s) = upper_char c <> upper s
