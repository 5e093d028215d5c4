-- ===== src/Api/GraphQl/Tokens.antt =====
-- crates/ironfish-api/src/graphql/resolvers.rs: the resolvers of tokens.
use ironfish.Base.{ℕ, Bool, true, Option, none, some, List, Text, map}
use ironfish.Core.Error.{Result, ok, err, display}
use ironfish.Core.Cluster.{DateTime}
use ironfish.Core.Token.{Uuid, ApiToken, CreateTokenRequest, CreateTokenResponse}
use ironfish.Auth.Token
use ironfish.Auth.Token.{Bytes, Crypto}
use ironfish.Auth.Store
use ironfish.Auth.Store.{Codec, Store}
use ironfish.Api.State.{ApiState}
use ironfish.Api.GraphQl.{Resolved, crashed, failed, resolved}

pub record TokenObject : Type 0 where
  pub id : Text
  pub token : Text
  pub expires_at : Option DateTime

pub record TokenInfo : Type 0 where
  pub id : Text
  pub name : Option Text
  pub created_at : DateTime
  pub expires_at : Option DateTime
  pub revoked : Bool

pub record CreateTokenInput : Type 0 where
  pub name : Option Text
  pub expires_in_days : Option ℕ
  pub rate_limit : Option ℕ

unfoldable pub request_of : Option CreateTokenInput → CreateTokenRequest
request_of none = record { name = none; expires_in_days = none; rate_limit = none }
request_of (some i) = record {
  name = i.name;
  expires_in_days = i.expires_in_days;
  rate_limit = i.rate_limit;
}

abbrev info_of : (Uuid → Text) → ApiToken → TokenInfo
info_of show t = record {
  id = show t.id;
  name = t.name;
  created_at = t.created_at;
  expires_at = t.expires_at;
  revoked = t.revoked;
}

abbrev pub token_of : (Uuid → Text) → CreateTokenResponse → TokenObject
token_of show r = record { id = show r.id; token = r.token; expires_at = r.expires_at }

abbrev pub resolved_or : {A B : Type 0} → (A → B) → Result A → Resolved B
resolved_or f (ok a) = resolved (f a)
resolved_or f (err e) = failed (display e)

module _ (codec : Codec) (c : Crypto) where
  unfoldable pub tokens :
      (Uuid → Text) → ApiState codec c → Resolved (List TokenInfo) × ApiState codec c
  tokens show st =
      let (r, s) = Store.list codec st.token_store in
      (resolved_or (map (info_of show)) r, record st { token_store = s })

  unfoldable pub keep :
      (Uuid → Text)
      → Option (Result (ApiToken × CreateTokenResponse))
      → ApiState codec c
      → Resolved TokenObject × ApiState codec c
  keep show none st = (crashed, st)
  keep show (some (err e)) st = (failed (display e), st)
  keep show (some (ok (t, response))) st =
      let (r, s) = Store.create codec t st.token_store in
      (resolved_or (λ _. token_of show response) r, record st { token_store = s })

  -- The new identifier, the random bytes and the clock are given.
  unfoldable pub create_token :
      (Uuid → Text)
      → Uuid
      → Option Bytes
      → DateTime
      → DateTime
      → Option CreateTokenInput
      → ApiState codec c
      → Resolved TokenObject × ApiState codec c
  unfolding request_of keep
  create_token show fresh random now then_ input st =
      keep show (Token.create c st.token_manager fresh random now then_ (request_of input)) st

  -- `parse` reads an identifier, or gives the text of its error.
  pub data Parsed : Type 0 where
    parsed : Uuid → Parsed
    not_parsed : Text → Parsed

  unfoldable pub revoke_token :
      (Text → Parsed) → DateTime → Text → ApiState codec c → Resolved Bool × ApiState codec c
  revoke_token parse now id st = elim (parse id) [
    | not_parsed e ↦ (failed e, st)
    | parsed uuid ↦
        let (r, s) = Store.revoke codec now uuid st.token_store in
        (resolved_or (λ _. true) r, record st { token_store = s })
  ]
