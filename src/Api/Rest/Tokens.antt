-- ===== src/Api/Rest/Tokens.antt =====
-- crates/ironfish-api/src/rest/handlers.rs: the handlers of tokens, which tell the other nodes.
use ironfish.Base.{Option, none, some, List, Text, text, map}
use ironfish.Core.Error.{Result, ok, err, display}
use ironfish.Core.Cluster.{DateTime}
use ironfish.Core.Token.{
  Uuid, ApiToken, TokenMetadata, from_token, CreateTokenRequest, CreateTokenResponse,
}
use ironfish.Auth.Token
use ironfish.Auth.Token.{Bytes, Crypto}
use ironfish.Auth.Store
use ironfish.Auth.Store.{Codec, Store}
use ironfish.Api.State.{ApiState, broadcast_token_created, broadcast_token_revoked}
use ironfish.Api.Rest.{
  CreateTokenBody, Reply, crashed, refused, replied, bad_request, internal_server_error, reply_or,
}

abbrev metadata : Result (List ApiToken) → Result (List TokenMetadata)
metadata (ok tokens) = ok (map from_token tokens)
metadata (err e) = err e

abbrev pub request_of : CreateTokenBody → CreateTokenRequest
request_of body = record {
  name = body.name;
  expires_in_days = body.expires_in_days;
  rate_limit = body.rate_limit;
}

module _ (codec : Codec) (c : Crypto) where
  unfoldable pub list_tokens : ApiState codec c → Reply (List TokenMetadata) × ApiState codec c
  list_tokens st =
      let (r, s) = Store.list codec st.token_store in
      (reply_or internal_server_error (metadata r), record st { token_store = s })

  -- Once the store has answered: the token is broadcast only if it is stored.
  unfoldable pub told :
      ApiToken
      → CreateTokenResponse
      → Result (Unit {0})
      → ApiState codec c
      → Reply CreateTokenResponse × ApiState codec c
  told t response (ok _) st = (replied response, broadcast_token_created codec c t st)
  told t response (err e) st = (refused internal_server_error (display e), st)

  unfoldable pub keep :
      Option (Result (ApiToken × CreateTokenResponse))
      → ApiState codec c
      → Reply CreateTokenResponse × ApiState codec c
  unfolding told
  keep none st = (crashed, st)
  keep (some (err e)) st = (refused internal_server_error (display e), st)
  keep (some (ok (t, response))) st =
      let (r, s) = Store.create codec t st.token_store in
      told t response r (record st { token_store = s })

  -- The new identifier, the random bytes and the clock are given.
  unfoldable pub create_token :
      Uuid
      → Option Bytes
      → DateTime
      → DateTime
      → CreateTokenBody
      → ApiState codec c
      → Reply CreateTokenResponse × ApiState codec c
  unfolding keep
  create_token fresh random now then_ body st =
      keep (Token.create c st.token_manager fresh random now then_ (request_of body)) st

  unfoldable pub revoked :
      Uuid → Result (Unit {0}) → ApiState codec c → Reply (Unit {0}) × ApiState codec c
  revoked id (ok _) st = (replied tt, broadcast_token_revoked codec c id st)
  revoked id (err e) st = (refused internal_server_error (display e), st)

  unfoldable pub revoke_token :
      (Text → Option Uuid)
      → DateTime
      → Text
      → ApiState codec c
      → Reply (Unit {0}) × ApiState codec c
  unfolding revoked
  revoke_token parse now id st = elim (parse id) [
    | none ↦ (refused bad_request (text "invalid token id"), st)
    | some uuid ↦
        let (r, s) = Store.revoke codec now uuid st.token_store in
        revoked uuid r (record st { token_store = s })
  ]
