-- ===== src/Errors.antt =====
-- src/cimd_proxy/errors.py, and the program's other exceptions as values of one type. A function that
-- may raise returns a `Result`.
use cimd_proxy.Prelude.{String, ◌<>◌, ℕ, ◌≡◌, refl, ap, ◌⊎◌, inl, inr, [], ◌∷◌}
use cimd_proxy.Prelude.Dict.{Dict}

pub record OAuthError : Type 0 where
  pub error : String
  pub description : String
  pub status_code : ℕ

unfoldable pub as_dict : OAuthError → Dict String
as_dict e = ("error", e.error) ∷ ("error_description", e.description) ∷ []

unfoldable pub to_string : OAuthError → String
to_string e = e.error <> ": " <> e.description

abbrev pub invalid_request : String → OAuthError
invalid_request d = record { error = "invalid_request"; description = d; status_code = 400 }

abbrev pub invalid_target : String → OAuthError
invalid_target d = record { error = "invalid_target"; description = d; status_code = 400 }

abbrev pub invalid_client : String → OAuthError
invalid_client d = record { error = "invalid_client"; description = d; status_code = 400 }

abbrev pub unauthorized_client : String → OAuthError
unauthorized_client d = record { error = "unauthorized_client"; description = d; status_code = 400 }

abbrev pub invalid_grant : String → OAuthError
invalid_grant d = record { error = "invalid_grant"; description = d; status_code = 400 }

abbrev pub unsupported_grant_type : String → OAuthError
unsupported_grant_type d = record {
  error = "unsupported_grant_type";
  description = d;
  status_code = 400;
}

abbrev pub server_error : String → OAuthError
server_error d = record { error = "server_error"; description = d; status_code = 502 }

abbrev pub temporarily_unavailable : String → OAuthError
temporarily_unavailable d = record {
  error = "temporarily_unavailable";
  description = d;
  status_code = 503;
}

-- `value_error`, `type_error` and `attribute_error` are Python's own, `store_error` is psycopg's: where
-- no handler names them the server answers 500.
pub data Exception : Type 0 where
  oauth : OAuthError → Exception
  redirect_uri_refused : String → Exception
  envelope_error : String → Exception
  fetch_error : String → Exception
  ssrf_refused : String → Exception
  document_invalid : String → Exception
  registration_error : (error description : String) (status_code : ℕ) → Exception
  management_error : (status_code : ℕ) (error description : String) → Exception
  link_conflict : String → Exception
  config_error : String → Exception
  value_error : String → Exception
  type_error : String → Exception
  attribute_error : String → Exception
  store_error : String → Exception
  cli_error : String → Exception
  http_error : String → Exception
  runtime_error : String → Exception

pub data Result {ℓ} (A : Type ℓ) : Type ℓ where
  ok : A → Result A
  err : Exception → Result A

abbrev ok_or {ℓ} : {A : Type ℓ} → A → Result A → A
ok_or a (ok b) = b
ok_or a (err e) = a

-- What follows a call runs where the call returns; an exception passes.
infixl 5 ◌>>=◌
abbrev pub ◌>>=◌ {ℓ κ} :
    {A : Type ℓ} {B : Type κ} (before : Result A) (after : A → Result B) → Result B
err raised >>= after = err raised
ok value >>= after = after value

infixl 5 ◌>>◌
abbrev pub ◌>>◌ {κ} : {B : Type κ} (test : Result (Unit {0})) (after : Result B) → Result B
test >> after = test >>= λ _. after

-- A run that returns went through the call and what follows it.
pub >>=-eq-ok {ℓ κ} :
    {X : Type ℓ} {Y : Type κ} (before : Result X) (after : X → Result Y) {y : Y}
    → (before >>= after) ≡ ok y
    → (x : X) × (before ≡ ok x) × (after x ≡ ok y)
>>=-eq-ok (err raised) after ends = cc
>>=-eq-ok (ok x) after ends = (x, refl, ends)

pub ok-injective {ℓ} : {A : Type ℓ} {a b : A} → ok a ≡ ok b → a ≡ b
ok-injective {a} p = ap (ok_or a) p

abbrev err_or {ℓ} : {A : Type ℓ} → Exception → Result A → Exception
err_or x (ok b) = x
err_or x (err e) = e

abbrev error_of {ℓ} : {A : Type ℓ} → Exception → Result A
error_of e = err e

pub err-injective {ℓ} : {A : Type ℓ} {a b : Exception} → error_of {A = A} a ≡ err b → a ≡ b
err-injective {a} p = ap (err_or a) p

pub Result-cases {ℓ} :
    {A : Type ℓ} (r : Result A) → ((a : A) × (r ≡ ok a)) ⊎ ((e : Exception) × (r ≡ err e))
Result-cases (ok a) = inl (a, refl)
Result-cases (err e) = inr (e, refl)
