-- ===== src/Pat/Text.antt =====
-- `str(value)` of a JSON value, as src/cimd_proxy/pat.py takes it of an upstream's error.
use cimd_proxy.Prelude.{
  suc, String, ◌<>◌, true, false, Option, none, some, List, [], ◌∷◌, join, repr,
}
use cimd_proxy.Prelude.Int.{pos, negsuc}
use cimd_proxy.Digits.{decimal}
use cimd_proxy.Json.{
  Json, null, bool, int, float, str, arr, obj, Items, nil, cons, Fields, end, field,
}

unfoldable mutual
  pub repr_of : Json → String
  repr_of null = "None"
  repr_of (bool true) = "True"
  repr_of (bool false) = "False"
  repr_of (int (pos n)) = decimal n
  repr_of (int (negsuc n)) = "-" <> decimal (suc n)
  repr_of (float s) = s
  repr_of (str s) = repr s
  repr_of (arr vs) = "[" <> join ", " (repr_items vs) <> "]"
  repr_of (obj fs) = "{" <> join ", " (repr_fields fs) <> "}"

  pub repr_items : Items → List String
  repr_items nil = []
  repr_items (cons v vs) = repr_of v ∷ repr_items vs

  pub repr_fields : Fields → List String
  repr_fields end = []
  repr_fields (field k v fs) = (repr k <> ": " <> repr_of v) ∷ repr_fields fs

unfoldable pub text_of : Json → String
unfolding repr_of
text_of (str s) = s
text_of v = repr_of v

-- `str(payload.get(key, default))`
unfoldable pub text_or : String → Option Json → String
unfolding text_of
text_or default none = default
text_or default (some v) = text_of v
