-- ===== src/Logging.antt =====
-- src/cimd_proxy/logging_setup.py: what is redacted before a line is written.
pub mod Hidden
use Prim.Native.String.{count}
use cimd_proxy.Prelude.{
  ℕ, String, ◌<>◌, code, Bool, true, false, Option, none, some, List, [], ◌∷◌, if◌then◌else◌, leb,
  contains, eqb, ◌||◌, ◌==◌, map,
}
use cimd_proxy.Prelude.Dict.{Dict, lookup, insert}
use cimd_proxy.Json.{
  Json, null, bool, int, float, str, arr, obj, Items, nil, cons, Fields, end, field, fields, object,
}
use cimd_proxy.Pkce.{take_chars}
use cimd_proxy.Pat.Text.{text_of}

-- `_SECRET_FIELDS`
abbrev pub secret_fields : List String
secret_fields =
    "access_token" ∷ "refresh_token" ∷ "code" ∷ "code_verifier" ∷ "client_secret"
    ∷ "PROXY_SECRET_KEY" ∷ "secret_key" ∷ "upstream_refresh_token" ∷ "upstream_code"
    ∷ "upstream_verifier" ∷ "subject_token" ∷ "assertion" ∷ "token" ∷ []

-- `_redact_string`
unfoldable pub redact_string : Json → String
unfolding text_of take_chars
redact_string value = shorten (text_of value)
  where
    shorten : String → String
    shorten text = if leb (count text) 6 then "…" else take_chars 6 text <> "…"

-- `redact`, of a payload of JSON values.
unfoldable mutual
  unfolding redact_string

  pub redact : Json → Json
  redact null = null
  redact (bool b) = bool b
  redact (int n) = int n
  redact (float s) = float s
  redact (str s) = str s
  redact (arr vs) = arr (redact_items vs)
  redact (obj fs) = obj (redact_fields fs)

  pub redact_items : Items → Items
  redact_items nil = nil
  redact_items (cons v vs) = cons (redact v) (redact_items vs)

  pub redact_fields : Fields → Fields
  redact_fields end = end
  redact_fields (field k v fs) =
      field k (if contains secret_fields k then str (redact_string v) else redact v)
        (redact_fields fs)

unfoldable pub sanitize_text : String → String
sanitize_text String.[] = ""
sanitize_text (String.◌∷◌ c s) =
    (if eqb (code c) 13
      then "\\r"
      else if eqb (code c) 10
      then "\\n"
      else if eqb (code c) 0
      then "\\0"
      else String.◌∷◌ c "")
    <> sanitize_text s

-- `sanitize`
unfoldable pub sanitize : Option String → Option String
unfolding sanitize_text
sanitize none = none
sanitize (some value) = some (sanitize_text value)

-- `redact`, where the value is an object.
unfoldable pub redact_object : Json → Json
unfolding redact
redact_object (obj fs) = redact (obj fs)
redact_object v = v

-- One attribute of a record behind `RedactionFilter.filter`.
unfoldable pub filtered : String → Json → Json
unfolding redact_string redact_object
filtered name value =
    if contains secret_fields name
    then str (redact_string value)
    else if name == "msg" || name == "fields"
    then redact_object value
    else value

-- `RedactionFilter.filter`, on the attributes of a record.
unfoldable pub filter_record : Dict Json → Dict Json
unfolding filtered
filter_record = map (λ ((name, value) : String × Json). (name, filtered name value))

-- What `JsonFormatter.format` reads of a record: `message` is `getMessage()`, `exception` the text of
-- `formatException`.
pub record LogRecord : Type 0 where
  pub ts : String
  pub levelname : String
  pub name : String
  pub correlation_id : Json
  pub msg : Json
  pub message : String
  pub fields_attribute : Option Json
  pub exception : Option String

-- `dict.update`
unfoldable pub dict_update : Dict Json → Dict Json → Dict Json
unfolding insert
dict_update d [] = d
dict_update d ((k, v) ∷ more) = dict_update (insert k v d) more

-- The payload of `JsonFormatter.format`, before its keys are sorted and printed.
unfoldable pub log_payload : LogRecord → Dict Json
unfolding lookup insert dict_update
log_payload r =
    with_exception r.exception (with_fields r.fields_attribute (with_message r.msg base))
  where
    base : Dict Json
    base =
        ("ts", str r.ts)
        ∷ ("level", str r.levelname)
        ∷ ("logger", str r.name)
        ∷ ("cid", r.correlation_id)
        ∷ []

    event : Option Json → Json
    event none = str ""
    event (some v) = v

    with_message : Json → Dict Json → Dict Json
    with_message (obj fs) d =
        insert "msg" (event (lookup "event" (fields fs))) (insert "fields" (obj fs) d)
    with_message _ d = insert "msg" (str r.message) d

    present : Option Json → Dict Json
    present (some (obj fs)) = fields fs
    present _ = []

    with_fields : Option Json → Dict Json → Dict Json
    with_fields (some (obj fs)) d =
        insert "fields" (object (dict_update (present (lookup "fields" d)) (fields fs))) d
    with_fields _ d = d

    with_exception : Option String → Dict Json → Dict Json
    with_exception none d = d
    with_exception (some text) d = insert "exc_info" (str text) d
