-- ===== src/Auth/Token.antt =====
-- crates/ironfish-auth/src/token.rs. The primitives of `ring`, `base64`, `uuid` and `chrono` are
-- the fields of `Crypto`; bytes are numbers below 256.
use ironfish.Base.{
  ℕ, zero, suc, ◌+◌, ◌*◌, ◌/◌, ◌%◌, Bool, true, false, Option, none, some, List, [], ◌∷◌, ◌++◌,
  Text, text, strip_prefix, ltb, if◌then◌else◌, ◌≡◌,
}
use ironfish.Core.Error.{internal, Result, ok, err}
use ironfish.Core.Cluster.{DateTime}
use ironfish.Core.Token.{Uuid, ApiToken, CreateTokenRequest, CreateTokenResponse}

abbrev pub Bytes : Type 0
Bytes = List ℕ

-- `key` is what `hmac::Key::new` makes of the secret. The latest instant of `chrono` bounds its
-- addition, which panics beyond. Decoding an encoded text succeeds.
pub record Crypto : Type 1 where
  pub Key : Type 0
  pub sign : Key → Bytes → Bytes
  pub encode : Bytes → Text
  pub decodes : Text → Bool
  pub utf8 : Text → Bytes
  pub latest : DateTime
  pub decodes-encode : (b : Bytes) → decodes (encode b) ≡ true

abbrev pub token_prefix : Text
token_prefix = text "iff_"

abbrev pub nanos_per_day : ℕ
nanos_per_day = 86400000000000

-- The `count` lowest bytes of a number, the lowest first.
unfoldable pub le_bytes : ℕ → ℕ → Bytes
le_bytes zero n = []
le_bytes (suc k) n = (n % 256) ∷ le_bytes k (n / 256)

-- The `count` lowest bytes, the highest first.
unfoldable pub be_bytes : ℕ → ℕ → Bytes
be_bytes zero n = []
be_bytes (suc k) n = be_bytes k (n / 256) ++ (n % 256) ∷ []

unfoldable pub extract_raw_token : Text → Option Text
extract_raw_token token = strip_prefix token_prefix token

abbrev pub days_or : ℕ → Option ℕ → ℕ
days_or default none = default
days_or default (some days) = days

module _ (c : Crypto) where
  open c use {Key, sign, encode, decodes, utf8, latest}

  pub record TokenManager : Type 0 where
    pub key : Key
    pub node_id : Text
    pub default_ttl_days : ℕ

  unfoldable pub new : Key → Text → TokenManager
  new key node_id = record { key = key; node_id = node_id; default_ttl_days = 365 }

  unfoldable pub with_default_ttl : ℕ → TokenManager → TokenManager
  with_default_ttl days m = record m { default_ttl_days = days }

  -- What `generate_raw_token` signs and encodes, for 32 random bytes and a time in seconds.
  unfoldable pub raw_from : Key → Uuid → Bytes → ℕ → Text
  unfolding le_bytes be_bytes
  raw_from key id random_bytes timestamp =
      let body = be_bytes 16 id ++ (random_bytes ++ le_bytes 8 timestamp) in
      encode (body ++ sign key body)

  -- `none` for the random bytes is a failure of the generator.
  unfoldable pub generate_raw_token : TokenManager → Uuid → Option Bytes → DateTime → Result Text
  unfolding raw_from
  generate_raw_token m id none now = err (internal (text "rng failed"))
  generate_raw_token m id (some random_bytes) now =
      ok (raw_from m.key id random_bytes (now / 1000000000))

  unfoldable pub hash_token : TokenManager → Text → Text
  hash_token m raw_token = encode (sign m.key (utf8 raw_token))

  unfoldable pub validate_format : Text → Bool
  unfolding extract_raw_token
  validate_format token = elim (extract_raw_token token) [ none ↦ false | some raw ↦ decodes raw ]

  -- `now + Duration::days(days)`: `none` is a panic.
  unfoldable pub add_days : DateTime → ℕ → Option DateTime
  add_days now days =
      let later = now + days * nanos_per_day in if ltb latest later then none else some later

  unfoldable pub issue :
      TokenManager
      → Uuid
      → DateTime
      → CreateTokenRequest
      → DateTime
      → Result Text
      → Result (ApiToken × CreateTokenResponse)
  issue m id now request expires (err e) = err e
  issue m id now request expires (ok raw) = ok (
    record {
      id = id;
      name = request.name;
      token_hash = hash_token m raw;
      created_at = now;
      expires_at = some expires;
      last_used_at = none;
      created_by_node = m.node_id;
      revoked = false;
      rate_limit = request.rate_limit;
    },
    record { id = id; token = token_prefix ++ raw; expires_at = some expires },
  )

  -- `id` is the random UUID, `now` and `then_` the two readings of the clock; `none` is a panic.
  unfoldable pub create :
      TokenManager
      → Uuid
      → Option Bytes
      → DateTime
      → DateTime
      → CreateTokenRequest
      → Option (Result (ApiToken × CreateTokenResponse))
  unfolding generate_raw_token add_days issue
  create m id random now then_ request =
      elim (add_days now (days_or m.default_ttl_days request.expires_in_days)) [
        | none ↦ none
        | some expires ↦
            some (issue m id now request expires (generate_raw_token m id random then_))
      ]
