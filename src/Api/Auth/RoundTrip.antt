-- ===== src/Api/Auth/RoundTrip.antt =====
-- The keys that are given and those that are accepted (auth.py).
use sitescore.Common.{
  ℕ, ◌==◌, Bool, true, false, not, ◌&&◌, ◌≡◌, refl, sym, subst, ap, ◌∙◌, arith, Option, none, some,
  String, List, [], ◌∷◌, ◌++◌, find, is_none, Member, nat_eq,
}
use sitescore.Common.Action.{Result, ok, err}
use sitescore.Api.Auth.{
  Text, text_eq, is_empty, ServiceApiKey, KeyStore, consumer_key, AuthenticatedConsumer, all_scopes,
  is_subset, dot, space, split_at, split_token, bearer_token, find_by_key, is_active, check_record,
  with_parts, with_token, authenticate_bearer, new_key, token_of, insert_key, add_key,
  provision_service_key,
}

ok_injective : {A : Type 0} (a b : A) → ok a ≡ ok b → a ≡ b
ok_injective a b h = ground arith

text_eq_same : (t : Text) → text_eq t t ≡ true
text_eq_same [] = refl
text_eq_same (c ∷ cs) = ground (arith, text_eq_same cs)

abbrev pub lacks : ℕ → Text → Bool
lacks c [] = true
lacks c (d ∷ ds) = not (d == c) && lacks c ds

-- A text is split at the first dot.
split_at-joined : (c : ℕ) (a b : Text) → lacks c a ≡ true → split_at c (a ++ c ∷ b) ≡ some (a, b)
split_at-joined c [] b h = ground arith
split_at-joined c (d ∷ ds) b h = ground (arith, split_at-joined c ds b)

split_token-token_of :
    (key_id secret : Text)
    → lacks dot key_id ≡ true
    → is_empty key_id ≡ false
    → is_empty secret ≡ false
    → split_token (token_of key_id secret) ≡ ok (key_id, secret)
unfolding split_token
split_token-token_of key_id secret l k n = rw (split_at-joined dot key_id secret l, k, n) refl

-- "Bearer " before a token.
abbrev pub header_of : Text → Text
header_of token = 66 ∷ 101 ∷ 97 ∷ 114 ∷ 101 ∷ 114 ∷ space ∷ token

bearer_token-header_of :
    (token : Text) → is_empty token ≡ false → bearer_token (some (header_of token)) ≡ ok token
unfolding bearer_token
bearer_token-header_of token h = ground arith

module _ (digest : Text → ℕ) (now record_id : ℕ) (key_id secret : Text) (consumer_id : ℕ)
    (scopes : List String) (s : KeyStore) where
  abbrev keyed : KeyStore
  keyed = record s { keys = new_key digest now record_id key_id secret consumer_id scopes ∷ s.keys }

  abbrev authenticated : AuthenticatedConsumer
  authenticated = record { consumer_id = consumer_id; key_record_id = record_id; scopes = scopes }

  check_record-new_key :
      is_subset scopes all_scopes ≡ true
      → is_active (find consumer_key consumer_id s.consumers) ≡ true
      → check_record digest secret keyed
          (some (new_key digest now record_id key_id secret consumer_id scopes))
        ≡ ok authenticated
  unfolding check_record
  check_record-new_key sub act = ground arith

  find_by_key-keyed :
      find_by_key key_id keyed.keys
      ≡ some (new_key digest now record_id key_id secret consumer_id scopes)
  find_by_key-keyed = ground (arith, text_eq_same key_id)

  authenticate-keyed :
      lacks dot key_id ≡ true
      → is_empty key_id ≡ false
      → is_empty secret ≡ false
      → is_subset scopes all_scopes ≡ true
      → is_active (find consumer_key consumer_id s.consumers) ≡ true
      → authenticate_bearer digest keyed (some (header_of (token_of key_id secret)))
        ≡ ok authenticated
  unfolding authenticate_bearer with_token with_parts
  authenticate-keyed l k n sub act =
      ap (with_token digest keyed) (bearer_token-header_of (token_of key_id secret) refl)
      ∙ ap (with_parts digest keyed) (split_token-token_of key_id secret l k n)
      ∙ ap (check_record digest secret keyed) find_by_key-keyed
      ∙ check_record-new_key sub act

  add_key-keyed :
      (b : Bool) (token : Text)
      → lacks dot key_id ≡ true
      → is_empty key_id ≡ false
      → is_empty secret ≡ false
      → is_subset scopes all_scopes ≡ true
      → is_active (find consumer_key consumer_id s.consumers) ≡ true
      → (add_key b
          (token_of key_id secret)
          (new_key digest now record_id key_id secret consumer_id scopes)
          s).0
        ≡ ok token
      → authenticate_bearer digest
          (add_key b
            (token_of key_id secret)
            (new_key digest now record_id key_id secret consumer_id scopes)
            s).1
          (some (header_of token))
        ≡ ok authenticated
  add_key-keyed true token l k n sub act h = ground arith
  add_key-keyed false token l k n sub act h =
      subst (λ t. authenticate_bearer digest keyed (some (header_of t)) ≡ ok authenticated)
        (ok_injective (token_of key_id secret) token h) (authenticate-keyed l k n sub act)

  insert_key-keyed :
      (b d : Bool) (token : Text)
      → (b ≡ true → is_subset scopes all_scopes ≡ true)
      → (d ≡ true → is_active (find consumer_key consumer_id s.consumers) ≡ true)
      → lacks dot key_id ≡ true
      → is_empty key_id ≡ false
      → is_empty secret ≡ false
      → (insert_key b d
          (token_of key_id secret)
          (new_key digest now record_id key_id secret consumer_id scopes)
          s).0
        ≡ ok token
      → authenticate_bearer digest
          (insert_key b d
            (token_of key_id secret)
            (new_key digest now record_id key_id secret consumer_id scopes)
            s).1
          (some (header_of token))
        ≡ ok authenticated
  unfolding insert_key
  insert_key-keyed false d token f g l k n h = ground arith
  insert_key-keyed true false token f g l k n h = ground arith
  insert_key-keyed true true token f g l k n h = add_key-keyed _ token l k n (f refl) (g refl) h

  -- A token that has been provided, sent as a bearer token, is accepted for its consumer, its record
  -- and its scopes, if its key has no dot and neither its key nor its secret is empty.
  pub authenticate-provided :
      (token : Text)
      → lacks dot key_id ≡ true
      → is_empty key_id ≡ false
      → is_empty secret ≡ false
      → (provision_service_key digest now record_id key_id secret consumer_id scopes s).0 ≡ ok token
      → authenticate_bearer digest
          (provision_service_key digest now record_id key_id secret consumer_id scopes s).1
          (some (header_of token))
        ≡ ok authenticated
  unfolding provision_service_key
  authenticate-provided token l k n h =
      insert_key-keyed _ _ token (λ b. ground arith) (λ d. d) l k n h

cons_eq : (a b : ℕ) (t u : Text) → (a == b) ≡ true → t ≡ u → a ∷ t ≡ b ∷ u
cons_eq a b t u h k = ground arith

text_eq_eq : (t u : Text) → text_eq t u ≡ true → t ≡ u
text_eq_eq [] [] h = refl
text_eq_eq [] (b ∷ u) h = ground arith
text_eq_eq (a ∷ t) [] h = ground arith
text_eq_eq (a ∷ t) (b ∷ u) h = cons_eq a b t u (ground arith) (text_eq_eq t u (ground arith))

IsFound : Text → List ServiceApiKey → ServiceApiKey → Type 0
IsFound key_id rs r = Member r rs × (text_eq r.key_id key_id ≡ true)

find_by_key-Member :
    (key_id : Text) (rs : List ServiceApiKey) (r : ServiceApiKey)
    → find_by_key key_id rs ≡ some r
    → IsFound key_id rs r
unfolding IsFound
find_by_key-Member key_id [] r h = ground arith
find_by_key-Member key_id (x ∷ rs) r h = ground (arith, find_by_key-Member key_id rs r)

-- The record behind an authenticated consumer, and the token that names it.
pub record IsRecorded (digest : Text → ℕ) (s : KeyStore) (authorization : Option Text)
    (c : AuthenticatedConsumer) (r : ServiceApiKey) : Type 0 where
  pub token : Text
  pub secret : Text
  pub bears : bearer_token authorization ≡ ok token
  pub parts : split_token token ≡ ok (r.key_id, secret)
  pub digested : r.secret_digest ≡ digest secret
  pub present : Member r s.keys
  pub current : (r.active && is_none r.revoked_at) ≡ true
  pub consumer : is_active (find consumer_key c.consumer_id s.consumers) ≡ true
  pub identity : (r.record_id ≡ c.key_record_id) × (r.consumer_id ≡ c.consumer_id)
  pub supported : is_subset c.scopes all_scopes ≡ true
  pub scopes : r.scopes ≡ c.scopes

module _ (digest : Text → ℕ) (s : KeyStore) (authorization : Option Text)
    (c : AuthenticatedConsumer) where
  Recorded : Type 0
  Recorded = (r : ServiceApiKey) × IsRecorded digest s authorization c r

  record-IsRecorded :
      (token key_id secret : Text) (r : ServiceApiKey)
      → bearer_token authorization ≡ ok token
      → split_token token ≡ ok (key_id, secret)
      → IsFound key_id s.keys r
      → check_record digest secret s (some r) ≡ ok c
      → IsRecorded digest s authorization c r
  unfolding check_record IsFound
  record-IsRecorded token key_id secret r b p (m, k) h = record {
    token = token;
    secret = secret;
    bears = b;
    parts = subst (λ x. split_token token ≡ ok (x, secret)) (sym (text_eq_eq r.key_id key_id k)) p;
    digested = ground arith;
    present = m;
    current = ground arith;
    consumer = ground arith;
    identity = ground arith;
    supported = ground arith;
    scopes = ground arith;
  }

  option_recorded :
      (token key_id secret : Text) (o : Option ServiceApiKey)
      → bearer_token authorization ≡ ok token
      → split_token token ≡ ok (key_id, secret)
      → ((r : ServiceApiKey) → o ≡ some r → IsFound key_id s.keys r)
      → check_record digest secret s o ≡ ok c
      → Recorded
  unfolding check_record Recorded
  option_recorded token key_id secret none b p f h = ground arith
  option_recorded token key_id secret (some r) b p f h =
      (r, record-IsRecorded token key_id secret r b p (f r refl) h)

  parts_recorded :
      (token : Text) (o : Result (Text × Text))
      → bearer_token authorization ≡ ok token
      → split_token token ≡ o
      → with_parts digest s o ≡ ok c
      → Recorded
  unfolding with_parts
  parts_recorded token (err e) b p h = ground arith
  parts_recorded token (ok (key_id, secret)) b p h =
      option_recorded token key_id secret (find_by_key key_id s.keys) b p
        (find_by_key-Member key_id s.keys) h

  token_recorded :
      (o : Result Text) → bearer_token authorization ≡ o → with_token digest s o ≡ ok c → Recorded
  unfolding with_token
  token_recorded (err e) b h = ground arith
  token_recorded (ok token) b h = parts_recorded token (split_token token) b refl h

  -- A consumer is authenticated only by the record of a key that the bearer token names and whose
  -- digest is that of the token's secret. The key is active and not revoked, the consumer is active,
  -- and it has the scopes of the record, which are supported.
  pub authenticate-IsRecorded :
      authenticate_bearer digest s authorization ≡ ok c
      → (r : ServiceApiKey) × IsRecorded digest s authorization c r
  unfolding authenticate_bearer Recorded
  authenticate-IsRecorded h = token_recorded (bearer_token authorization) refl h
