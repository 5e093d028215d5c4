-- ===== src/Core/Token.antt =====
-- crates/ironfish-core/src/types/token.rs: API tokens. A `Uuid` is its 128-bit number.
use ironfish.Base.{ℕ, Bool, true, false, Option, none, some, Text, ltb, if◌then◌else◌}
use ironfish.Core.Cluster.{DateTime}

abbrev pub Uuid : Type 0
Uuid = ℕ

pub record ApiToken : Type 0 where
  pub id : Uuid
  pub name : Option Text
  pub token_hash : Text
  pub created_at : DateTime
  pub expires_at : Option DateTime
  pub last_used_at : Option DateTime
  pub created_by_node : Text
  pub revoked : Bool
  pub rate_limit : Option ℕ

has_expired : DateTime → Option DateTime → Bool
has_expired now none = false
has_expired now (some expires_at) = ltb expires_at now

-- `is_valid` at the clock reading `now`.
unfoldable pub is_valid : DateTime → ApiToken → Bool
unfolding has_expired
is_valid now t = if t.revoked then false else if has_expired now t.expires_at then false else true

pub record TokenMetadata : Type 0 where
  pub id : Uuid
  pub name : Option Text
  pub created_at : DateTime
  pub expires_at : Option DateTime
  pub last_used_at : Option DateTime
  pub revoked : Bool

unfoldable pub from_token : ApiToken → TokenMetadata
from_token t = record {
  id = t.id;
  name = t.name;
  created_at = t.created_at;
  expires_at = t.expires_at;
  last_used_at = t.last_used_at;
  revoked = t.revoked;
}

pub record CreateTokenRequest : Type 0 where
  pub name : Option Text
  pub expires_in_days : Option ℕ
  pub rate_limit : Option ℕ

pub record CreateTokenResponse : Type 0 where
  pub id : Uuid
  pub token : Text
  pub expires_at : Option DateTime
