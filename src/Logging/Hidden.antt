-- ===== src/Logging/Hidden.antt =====
-- What a redacted payload still shows: src/cimd_proxy/logging_setup.py.
use Prim.Native.String.{count}
use cimd_proxy.Prelude.{
  String, ◌<>◌, ◌≡◌, refl, ap, inl, inr, true, false, [], ◌∷◌, leb, contains, ◌||◌, ◌==◌,
  Bool-cases,
}
use cimd_proxy.Prelude.Dict.{Dict}
use cimd_proxy.Json.{Json, arr, obj, Items, nil, cons, Fields, end, field}
use cimd_proxy.Pkce.{take_chars}
use cimd_proxy.Pat.Text.{text_of}
use cimd_proxy.Logging.{
  secret_fields, redact_string, redact, redact_items, redact_fields, redact_object, filtered,
  filter_record,
}

-- Two payloads that agree outside of the secret members: there, they agree on whether the text is
-- longer than six characters, and on its first six if so. They may differ in all else.
mutual
  pub data Alike : Json → Json → Type 0 where
    same : (v : Json) → Alike v v
    lists : {us vs : Items} → AlikeItems us vs → Alike (arr us) (arr vs)
    objects : {fs gs : Fields} → AlikeFields fs gs → Alike (obj fs) (obj gs)

  pub data AlikeItems : Items → Items → Type 0 where
    none_left : AlikeItems nil nil
    both :
        {u v : Json} {us vs : Items}
        → Alike u v
        → AlikeItems us vs
        → AlikeItems (cons u us) (cons v vs)

  pub data AlikeFields : Fields → Fields → Type 0 where
    no_member : AlikeFields end end
    open_member :
        {u v : Json} {fs gs : Fields}
        → (k : String) → contains secret_fields k ≡ false
        → Alike u v
        → AlikeFields fs gs
        → AlikeFields (field k u fs) (field k v gs)
    secret_member :
        {u v : Json} {fs gs : Fields}
        → (k : String) → contains secret_fields k ≡ true
        → leb (count (text_of u)) 6 ≡ leb (count (text_of v)) 6
        → (leb (count (text_of u)) 6 ≡ false → take_chars 6 (text_of u) ≡ take_chars 6 (text_of v))
        → AlikeFields fs gs
        → AlikeFields (field k u fs) (field k v gs)

redact_string-alike :
    (u v : Json)
    → leb (count (text_of u)) 6 ≡ leb (count (text_of v)) 6
    → (leb (count (text_of u)) 6 ≡ false → take_chars 6 (text_of u) ≡ take_chars 6 (text_of v))
    → redact_string u ≡ redact_string v
unfolding redact_string
redact_string-alike u v long front = elim (Bool-cases (leb (count (text_of u)) 6)) [
  | inl short ↦ rw (← long) (rw short refl)
  | inr more ↦ rw (← long) (rw more (ap (λ (s : String). s <> "…") (front more)))
]

mutual
  unfolding redact redact_items redact_fields

  alike : (u v : Json) → Alike u v → redact u ≡ redact v
  alike u v (same w) = refl
  alike u v (lists h) = ap arr (alike_items _ _ h)
  alike u v (objects h) = ap obj (alike_fields _ _ h)

  alike_items : (us vs : Items) → AlikeItems us vs → redact_items us ≡ redact_items vs
  alike_items us vs none_left = refl
  alike_items us vs (both h hs) = rw (alike _ _ h, alike_items _ _ hs) refl

  alike_fields : (fs gs : Fields) → AlikeFields fs gs → redact_fields fs ≡ redact_fields gs
  alike_fields fs gs no_member = refl
  alike_fields fs gs (open_member k opened h hs) =
      rw (opened, alike _ _ h, alike_fields _ _ hs) refl
  alike_fields fs gs (secret_member {u} {v} k secret long front hs) =
      rw (secret, redact_string-alike u v long front, alike_fields _ _ hs) refl

-- Of a secret member, however deep it is nested, a redacted payload shows whether its text is longer than
-- six characters and its first six if so, and nothing else: payloads that agree on this and outside of
-- the secret members are redacted to the same.
pub redact-Alike : (u v : Json) → Alike u v → redact u ≡ redact v
redact-Alike u v h = alike u v h

-- Records that agree outside of the secrets, in their attributes and in the payloads that are objects.
pub data AlikeRecords : Dict Json → Dict Json → Type 0 where
  no_attribute : AlikeRecords [] []
  same_attribute :
      {r s : Dict Json}
      → (name : String) (value : Json) → AlikeRecords r s
      → AlikeRecords ((name, value) ∷ r) ((name, value) ∷ s)
  payload_attribute :
      {fs gs : Fields} {r s : Dict Json}
      → (name : String) → contains secret_fields name ≡ false
      → (name == "msg" || name == "fields") ≡ true
      → AlikeFields fs gs
      → AlikeRecords r s
      → AlikeRecords ((name, obj fs) ∷ r) ((name, obj gs) ∷ s)
  secret_attribute :
      {u v : Json} {r s : Dict Json}
      → (name : String) → contains secret_fields name ≡ true
      → leb (count (text_of u)) 6 ≡ leb (count (text_of v)) 6
      → (leb (count (text_of u)) 6 ≡ false → take_chars 6 (text_of u) ≡ take_chars 6 (text_of v))
      → AlikeRecords r s
      → AlikeRecords ((name, u) ∷ r) ((name, v) ∷ s)

-- What the filter leaves of a secret, as an attribute or however deep in a payload, is whether its text
-- is longer than six characters and its first six if so: records that agree on this and outside of the
-- secrets are the same behind the filter.
pub filter_record-AlikeRecords :
    (r s : Dict Json) → AlikeRecords r s → filter_record r ≡ filter_record s
unfolding filter_record filtered redact_object
filter_record-AlikeRecords r s no_attribute = refl
filter_record-AlikeRecords r s (same_attribute {r = r'} {s = s'} name value h) =
    ap (λ (rest : Dict Json). (name, filtered name value) ∷ rest)
      (filter_record-AlikeRecords r' s' h)
filter_record-AlikeRecords r s
      (payload_attribute {fs} {gs} {r = r'} {s = s'} name opened payload h hs) =
    rw (opened, payload, alike _ _ (objects h), filter_record-AlikeRecords r' s' hs) refl
filter_record-AlikeRecords r s
      (secret_attribute {u} {v} {r = r'} {s = s'} name secret long front hs) =
    rw (secret, redact_string-alike u v long front, filter_record-AlikeRecords r' s' hs) refl
