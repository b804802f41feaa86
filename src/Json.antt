-- ===== src/Json.antt =====
-- JSON values as Python's `json` module reads them: what `loads` gives and `dumps` takes.
use mathlib.Core.Option.{some-injective}
use cimd_proxy.Prelude.{String, Bool, Option, none, some, List, [], ◌∷◌, ◌≡◌, refl, sym, ap}
use cimd_proxy.Prelude.Dict.{Dict}
use cimd_proxy.Prelude.Int.{ℤ}

-- A number with a fraction or an exponent is kept as its text: no code here computes with one.
mutual
  pub data Json : Type 0 where
    null : Json
    bool : Bool → Json
    int : ℤ → Json
    float : String → Json
    str : String → Json
    arr : Items → Json
    obj : Fields → Json

  pub data Items : Type 0 where
    nil : Items
    cons : Json → Items → Items

  pub data Fields : Type 0 where
    end : Fields
    field : String → Json → Fields → Fields

abbrev pub items : Items → List Json
items nil = []
items (cons v vs) = v ∷ items vs

abbrev pub fields : Fields → Dict Json
fields end = []
fields (field k v fs) = (k, v) ∷ fields fs

abbrev pub to_items : List Json → Items
to_items [] = nil
to_items (v ∷ vs) = cons v (to_items vs)

abbrev pub to_fields : Dict Json → Fields
to_fields [] = end
to_fields ((k, v) ∷ d) = field k v (to_fields d)

abbrev pub object : Dict Json → Json
object d = obj (to_fields d)

abbrev pub strings : List String → Items
strings [] = nil
strings (s ∷ ss) = cons (str s) (strings ss)

-- `isinstance(value, str)` with the text.
abbrev pub as_str : Json → Option String
as_str (str s) = some s
as_str _ = none

-- `d.get(k)` where a text is wanted.
abbrev pub str_of : Option Json → Option String
str_of none = none
str_of (some v) = as_str v

abbrev join_strings : Option String → Option (List String) → Option (List String)
join_strings (some s) (some ss) = some (s ∷ ss)
join_strings none _ = none
join_strings (some s) none = none

-- Every value is a text: the texts.
unfoldable pub all_strings : Items → Option (List String)
all_strings nil = some []
all_strings (cons v vs) = join_strings (as_str v) (all_strings vs)

pub all_strings-strings : (ss : List String) → all_strings (strings ss) ≡ some ss
unfolding all_strings
all_strings-strings [] = refl
all_strings-strings (s ∷ ss) = rw (all_strings-strings ss)

abbrev texts_or : List String → Option (List String) → List String
texts_or d (some ss) = ss
texts_or d none = d

join_strings_sound :
    (o : Option String) (r : Option (List String)) (ss : List String)
    → join_strings o r ≡ some ss
    → (s : String) × (rest : List String) × (o ≡ some s) × (r ≡ some rest) × (ss ≡ s ∷ rest)
join_strings_sound (some s) (some rest) ss h = (s, rest, refl, refl, sym (ap (texts_or []) h))
join_strings_sound none r ss h = absurd (cc h)
join_strings_sound (some s) none ss h = absurd (cc h)

as_str_sound : (v : Json) (s : String) → as_str v ≡ some s → v ≡ str s
as_str_sound (str t) s h = ap str (some-injective _ _ h)
as_str_sound null s h = absurd (cc h)
as_str_sound v s h = absurd (cc h)

pub all_strings_sound : (vs : Items) (ss : List String) → all_strings vs ≡ some ss → vs ≡ strings ss
unfolding all_strings
all_strings_sound nil ss h = rw (← (ap (texts_or []) h)) refl
all_strings_sound (cons v vs) ss h =
    let (s, rest, text, texts, is) = join_strings_sound (as_str v) (all_strings vs) ss h in
    rw (is, as_str_sound v s text, all_strings_sound vs rest texts) refl
