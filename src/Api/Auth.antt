-- ===== src/Api/Auth.antt =====
-- The keys of the analysis service and their check (auth.py, ConsumerModel and ServiceApiKeyModel of
-- db_models.py). A text that is taken apart is the list of its code points, and a set is a list whose
-- order means nothing. HMAC-SHA-256 and the new tokens are parameters.
pub mod RoundTrip
use sitescore.Common.{
  ℕ, ◌+◌, ◌==◌, leb, Bool, true, false, not, ◌&&◌, ◌||◌, String, str_eq, Option, none, some, List,
  [], ◌∷◌, ◌++◌, any, all, is_none, find, nat_eq, Eq, if◌then◌else◌,
}
use sitescore.Common.Action.{
  Action, Result, ok, err, value_error, authentication_required, invalid_api_key, integrity_error,
  insufficient_scope,
}

abbrev pub Text : Type 0
Text = List ℕ

abbrev pub text_eq : Text → Text → Bool
text_eq [] [] = true
text_eq (a ∷ t) (b ∷ u) = a == b && text_eq t u
text_eq _ _ = false

abbrev pub is_empty : Text → Bool
is_empty [] = true
is_empty (_ ∷ _) = false

-- `ConsumerModel`
pub record Consumer : Type 0 where
  pub consumer_id : ℕ
  pub active : Bool

-- `ServiceApiKeyModel`
pub record ServiceApiKey : Type 0 where
  pub record_id : ℕ
  pub key_id : Text
  pub consumer_id : ℕ
  pub secret_digest : ℕ
  pub scopes : List String
  pub active : Bool
  pub created_at : ℕ
  pub revoked_at : Option ℕ

pub record KeyStore : Type 0 where
  pub consumers : List Consumer
  pub keys : List ServiceApiKey

abbrev pub consumer_key : Consumer → ℕ
consumer_key c = c.consumer_id

pub record AuthenticatedConsumer : Type 0 where
  pub consumer_id : ℕ
  pub key_record_id : ℕ
  pub scopes : List String

abbrev pub all_scopes : List String
all_scopes = "analysis:write" ∷ "analysis:read" ∷ "report:write" ∷ "report:read" ∷ []

abbrev pub has_scope : List String → String → Bool
has_scope scopes s = any (λ (x : String). str_eq x s) scopes

unfoldable pub is_subset : List String → List String → Bool
is_subset scopes of_scopes = all (λ (x : String). has_scope of_scopes x) scopes

-- `require_scope`
unfoldable pub require_scope : AuthenticatedConsumer → String → Result (Unit {0})
require_scope c scope = if has_scope c.scopes scope then ok tt else err insufficient_scope

-- "ssk1_"
abbrev pub token_prefix : Text
token_prefix = 115 ∷ 115 ∷ 107 ∷ 49 ∷ 95 ∷ []

-- "bearer"
abbrev pub bearer : Text
bearer = 98 ∷ 101 ∷ 97 ∷ 114 ∷ 101 ∷ 114 ∷ []

abbrev pub dot : ℕ
dot = 46

abbrev pub space : ℕ
space = 32

-- What follows a prefix.
abbrev pub strip : Text → Text → Option Text
strip [] t = some t
strip (c ∷ cs) [] = none
strip (c ∷ cs) (d ∷ ds) = if c == d then strip cs ds else none

abbrev pub extend : ℕ → Option (Text × Text) → Option (Text × Text)
extend c none = none
extend c (some (a, b)) = some (c ∷ a, b)

-- The parts before and after the first `c`.
abbrev pub split_at : ℕ → Text → Option (Text × Text)
split_at c [] = none
split_at c (d ∷ ds) = let rest = split_at c ds in if d == c then some ([], ds) else extend d rest

-- `lower` on the letters A to Z.
abbrev pub lower_point : ℕ → ℕ
lower_point n = if leb 65 n && leb n 90 then n + 32 else n

abbrev pub lower : Text → Text
lower [] = []
lower (c ∷ cs) = lower_point c ∷ lower cs

abbrev pub both_parts : Option (Text × Text) → Result (Text × Text)
both_parts none = err invalid_api_key
both_parts (some (key_id, secret)) =
    if is_empty key_id || is_empty secret then err invalid_api_key else ok (key_id, secret)

abbrev pub split_body : Option Text → Result (Text × Text)
split_body none = err invalid_api_key
split_body (some body) = both_parts (split_at dot body)

unfoldable pub split_token : Text → Result (Text × Text)
split_token token = split_body (strip token_prefix token)

-- The token of the header.
abbrev pub bearer_of : Option (Text × Text) → Result Text
bearer_of none = err authentication_required
bearer_of (some (scheme, token)) =
    if not (text_eq (lower scheme) bearer) || is_empty token
    then err authentication_required
    else ok token

unfoldable pub bearer_token : Option Text → Result Text
bearer_token none = err authentication_required
bearer_token (some authorization) = bearer_of (split_at space authorization)

abbrev pub find_by_key : Text → List ServiceApiKey → Option ServiceApiKey
find_by_key key_id [] = none
find_by_key key_id (r ∷ rs) = if text_eq r.key_id key_id then some r else find_by_key key_id rs

abbrev pub is_active : Option Consumer → Bool
is_active none = false
is_active (some c) = c.active

-- The checks of a key's record against a secret.
unfoldable pub check_record :
    (Text → ℕ) → Text → KeyStore → Option ServiceApiKey → Result AuthenticatedConsumer
unfolding is_subset
check_record digest secret s none = err invalid_api_key
check_record digest secret s (some r) =
    if r.active
      && is_none r.revoked_at
      && is_active (find consumer_key r.consumer_id s.consumers)
      && r.secret_digest == digest secret
      && is_subset r.scopes all_scopes
    then ok (record { consumer_id = r.consumer_id; key_record_id = r.record_id; scopes = r.scopes })
    else err invalid_api_key

abbrev pub with_parts : (Text → ℕ) → KeyStore → Result (Text × Text) → Result AuthenticatedConsumer
unfolding check_record
with_parts digest s (err e) = err e
with_parts digest s (ok (key_id, secret)) = check_record digest secret s (find_by_key key_id s.keys)

abbrev pub with_token : (Text → ℕ) → KeyStore → Result Text → Result AuthenticatedConsumer
unfolding split_token with_parts
with_token digest s (err e) = err e
with_token digest s (ok token) = with_parts digest s (split_token token)

-- `authenticate_bearer`, with the digest under the pepper.
unfoldable pub authenticate_bearer :
    (Text → ℕ) → KeyStore → Option Text → Result AuthenticatedConsumer
unfolding bearer_token with_token
authenticate_bearer digest s authorization = with_token digest s (bearer_token authorization)

abbrev pub new_key : (Text → ℕ) → ℕ → ℕ → Text → Text → ℕ → List String → ServiceApiKey
new_key digest now record_id key_id secret consumer_id scopes = record {
  record_id = record_id;
  key_id = key_id;
  consumer_id = consumer_id;
  secret_digest = digest secret;
  scopes = scopes;
  active = true;
  created_at = now;
  revoked_at = none;
}

abbrev pub token_of : Text → Text → Text
token_of key_id secret = token_prefix ++ key_id ++ dot ∷ secret

abbrev pub no_scopes : List String → Bool
no_scopes [] = true
no_scopes (_ ∷ _) = false

-- Whether a unique column has the value of the row already.
abbrev pub is_taken : ServiceApiKey → List ServiceApiKey → Bool
is_taken r keys =
    any (λ (x : ServiceApiKey). text_eq x.key_id r.key_id || x.record_id == r.record_id) keys

abbrev pub add_key : Bool → Text → ServiceApiKey → Action KeyStore Text
add_key true token r s = (err integrity_error, s)
add_key false token r s = (ok token, record s { keys = r ∷ s.keys })

-- The new row, if the scopes are supported and the consumer is active.
unfoldable pub insert_key : Bool → Bool → Text → ServiceApiKey → Action KeyStore Text
insert_key false active token r s =
    (err (value_error "scopes must be a non-empty subset of supported service scopes"), s)
insert_key true false token r s = (err (value_error "active consumer is required"), s)
insert_key true true token r s = add_key (is_taken r s.keys) token r s

-- `provision_service_key`, with a new record, key and secret.
unfoldable pub provision_service_key :
    (Text → ℕ) → ℕ → ℕ → Text → Text → ℕ → List String → Action KeyStore Text
unfolding is_subset insert_key
provision_service_key digest now record_id key_id secret consumer_id scopes s =
    insert_key (not (no_scopes scopes) && is_subset scopes all_scopes)
      (is_active (find consumer_key consumer_id s.consumers)) (token_of key_id secret)
      (new_key digest now record_id key_id secret consumer_id scopes) s
