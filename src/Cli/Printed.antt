-- ===== src/Cli/Printed.antt =====
-- What the commands of src/cimd_proxy/pat_cli.py print: the description of a token, and the table.
use Prim.Native.String.{count}
use cimd_proxy.Prelude.{
  ℕ, zero, suc, ◌-◌, String, ◌<>◌, Option, none, some, List, [], ◌∷◌, if◌then◌else◌, ltb, is_truthy,
  map, join,
}
use cimd_proxy.Prelude.Dict.{Dict, lookup}
use cimd_proxy.Json.{Json, str, arr, obj, items, fields, all_strings}
use cimd_proxy.Errors
use cimd_proxy.Errors.{
  Result, ok, err, Exception, cli_error, http_error, type_error, attribute_error,
}
use cimd_proxy.Pat.Text.{text_of, repr_of}
use cimd_proxy.Pat.Authenticate.{truth}

-- The characters of a text, as texts.
characters : String → List String
characters String.[] = []
characters (String.◌∷◌ c s) = String.◌∷◌ c "" ∷ characters s

-- `list(value)`, of a member that may be missing.
unfoldable pub listed_values : Option Json → Result (List Json)
unfolding characters
listed_values none = ok []
listed_values (some (arr vs)) = ok (items vs)
listed_values (some (obj fs)) = ok (map (λ ((k, v) : String × Json). str k) (fields fs))
listed_values (some (str s)) = ok (map str (characters s))
listed_values (some _) = err (type_error "the value is not iterable")

-- `sep.join(value)`, of a member that may be missing.
unfoldable pub joined_values : (sep : String) → Option Json → Result String
unfolding join characters all_strings
joined_values sep none = ok ""
joined_values sep (some (arr vs)) = of_strings (all_strings vs)
  where
    of_strings : Option (List String) → Result String
    of_strings none = err (type_error "sequence item: expected str instance")
    of_strings (some ss) = ok (join sep ss)
joined_values sep (some (obj fs)) = ok (join sep (map (λ ((k, v) : String × Json). k) (fields fs)))
joined_values sep (some (str s)) = ok (join sep (characters s))
joined_values sep (some _) = err (type_error "can only join an iterable")

-- `str(d.get(key))` and `repr(d.get(key))`
unfoldable pub shown : String → Dict Json → String
unfolding lookup text_of
shown key d = text (lookup key d)
  where
    text : Option Json → String
    text none = "None"
    text (some v) = text_of v

unfoldable pub quoted : String → Dict Json → String
unfolding lookup repr_of
quoted key d = text (lookup key d)
  where
    text : Option Json → String
    text none = "None"
    text (some v) = repr_of v

unfoldable pub describe : Dict Json → Result String
unfolding joined_values lookup shown quoted
describe created = Errors.◌>>=◌ (joined_values ", " (lookup "scopes" created)) λ sets.
    Errors.◌>>=◌ (joined_values ", " (lookup "resources" created)) λ resources. ok (
      "created personal access token "
      <> quoted "name" created
      <> " (id "
      <> shown "id" created
      <> ") for organization "
      <> shown "tenant" created
      <> ": permission sets "
      <> (if is_truthy sets then sets else "(none)")
      <> "; resources "
      <> resources
      <> "; expires "
      <> shown "expires_at" created)

-- A row of the table.
unfoldable pub row_of : Json → Result (List String)
unfolding joined_values lookup shown truth
row_of (obj fs) =
    let t = fields fs in
    Errors.◌>>=◌ (joined_values "," (lookup "scopes" t)) λ sets. ok (
      shown "id" t
      ∷ shown "name" t
      ∷ shown "tenant" t
      ∷ (if is_truthy sets then sets else "-")
      ∷ shown "expires_at" t
      ∷ (if truth (lookup "last_used_at" t) then shown "last_used_at" t else "-")
      ∷ (if truth (lookup "revoked_at" t) then "revoked" else "active")
      ∷ [])
row_of _ = err (attribute_error "the token has no attribute 'get'")

unfoldable pub rows_of : List Json → Result (List (List String))
unfolding row_of
rows_of [] = ok []
rows_of (v ∷ vs) = Errors.◌>>=◌ (row_of v) λ row. Errors.◌>>=◌ (rows_of vs) λ rows. ok (row ∷ rows)

-- The widths of the columns.
unfoldable pub wider : List ℕ → List String → List ℕ
wider [] cells = []
wider (w ∷ ws) [] = w ∷ ws
wider (w ∷ ws) (c ∷ cells) = (if ltb w (count c) then count c else w) ∷ wider ws cells

unfoldable pub widths : List ℕ → List (List String) → List ℕ
unfolding wider
widths ws [] = ws
widths ws (row ∷ rows) = widths (wider ws row) rows

abbrev pub blanks : ℕ → String
blanks zero = ""
blanks (suc n) = " " <> blanks n

-- `text.ljust(width)`
unfoldable pub ljust : String → ℕ → String
ljust s width = s <> blanks (width - count s)

unfoldable pub justified : List String → List ℕ → List String
unfolding ljust
justified [] ws = []
justified (c ∷ cells) [] = []
justified (c ∷ cells) (w ∷ ws) = ljust c w ∷ justified cells ws

abbrev pub heads : List String
heads = "ID" ∷ "NAME" ∷ "ORGANIZATION" ∷ "SETS" ∷ "EXPIRES" ∷ "LAST USED" ∷ "STATE" ∷ []

-- `_table`
unfoldable pub table : List Json → Result String
unfolding rows_of widths justified join
table tokens = Errors.◌>>=◌ (rows_of tokens) λ rows.
    let ws = widths (map (λ (h : String). count h) heads) rows in
    ok (join "\n" (map (λ (row : List String). join "  " (justified row ws)) (heads ∷ rows)))
