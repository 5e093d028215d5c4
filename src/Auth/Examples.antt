-- ===== src/Auth/Examples.antt =====
-- The theorems of the token store and the layer at work: a codec that keeps a token as it is, a
-- cipher that puts the key in front, and a store with one token.
use ironfish.Base.{
  ◌↔◌, true, false, none, some, List, [], ◌∷◌, ◌++◌, Text, text, text_eq, nat_eq, get as find,
  insert, strip_prefix, ◌≡◌, refl, arith,
}
use ironfish.Core.Error.{ok}
use ironfish.Core.Token.{ApiToken, CreateTokenRequest, is_valid}
use ironfish.Auth.Store.{Codec, Store, empty, create, get_by_hash}
use ironfish.Auth.Store.Laws.{IsIndexed, create-IsIndexed}
use ironfish.Auth.Store.Refinement
use ironfish.Auth.Store.Refinement.{
  Call, create_token, revoke_token, find_by_hash, delete_token, get_token, AllMeet, perform_all,
}
use ironfish.Auth.Store.Refinement.Steps.{perform_all_meets}
use ironfish.Auth.Token
use ironfish.Auth.Token.{
  Crypto, be_bytes, le_bytes, token_prefix, generate_raw_token, raw_from, add_days, issue,
  TokenManager, hash_token, validate_format,
}
use ironfish.Auth.Middleware.{
  Request, get_method, inner, AuthLayer, is_public_path, is_admin_path, call, by_token, by_raw,
  look_up, found,
}
use ironfish.Auth.Middleware.Access.{call-inner_iff, Allowed}
use ironfish.Auth.Middleware.Races.{revocation_lost}

abbrev pub plain : Codec
plain = record { Bytes = ApiToken; to_vec = λ t. t; from_slice = λ t. ok t; round_trip = λ t. refl }

abbrev pub crypto : Crypto
crypto = record {
  Key = Text;
  sign = λ k b. k ++ b;
  encode = λ b. b;
  decodes = λ t. true;
  utf8 = λ t. t;
  latest = 8000000000000000000000;
  decodes-encode = λ b. refl;
}

abbrev pub manager : TokenManager crypto
manager = record { key = text "k"; node_id = text "n1"; default_ttl_days = 365 }

abbrev pub token : ApiToken
token = record {
  id = 7;
  name = none;
  token_hash = text "kraw";
  created_at = 10;
  expires_at = some 100;
  last_used_at = none;
  created_by_node = text "n1";
  revoked = false;
  rate_limit = none;
}

abbrev pub second : ApiToken
second = record token { id = 8; token_hash = text "kother" }

abbrev pub store : Store plain
store = record { tokens_tree = (7, token) ∷ []; hash_index = (text "kraw", 7) ∷ []; faults = [] }

abbrev pub no_tokens : Store plain
no_tokens = record { tokens_tree = []; hash_index = []; faults = [] }

no_tokens-IsIndexed : IsIndexed plain no_tokens
unfolding find
no_tokens-IsIndexed = record {
  tokens = λ id d e. ground (arith, e);
  hashes = λ h id e. ground (arith, e);
}

pub store-IsIndexed : IsIndexed plain store
unfolding find create insert
store-IsIndexed = create-IsIndexed plain token no_tokens refl no_tokens-IsIndexed refl refl

abbrev pub layer : AuthLayer plain crypto
layer = record { manager = manager; enabled = true; admin_key = none }

abbrev pub request : Request
request = record {
  path = text "/v1/analyze";
  method = get_method;
  admin_key = none;
  authorization = some (text "Bearer iff_raw");
}

call-inner_iff_example :
    ((call plain crypto layer 20 21 request store).0.0 ≡ inner)
    ↔ Allowed plain crypto layer 20 request store
call-inner_iff_example = call-inner_iff plain crypto layer 20 21 request store

revocation_lost_example : is_valid 20 (record token { last_used_at = some 21 }) ≡ true
unfolding call is_public_path is_admin_path strip_prefix by_token validate_format by_raw look_up
    found get_by_hash find hash_token is_valid
revocation_lost_example =
    (revocation_lost plain crypto layer 20 21 40 request store
      (record token { last_used_at = some 21 }) refl store-IsIndexed refl).2

-- The identifier, two random bytes and the time, as bytes, and the same behind the key.
abbrev issued_body : Text
issued_body =
    0 ∷ 0 ∷ 0 ∷ 0 ∷ 0 ∷ 0 ∷ 0 ∷ 0 ∷ 0 ∷ 0 ∷ 0 ∷ 0 ∷ 0 ∷ 0 ∷ 0 ∷ 1 ∷ 5 ∷ 6 ∷ 2 ∷ 0 ∷ 0 ∷ 0 ∷ 0 ∷ 0
    ∷ 0 ∷ 0 ∷ []

abbrev pub issued_raw : Text
issued_raw = issued_body ++ (text "k" ++ issued_body)

abbrev pub ask : CreateTokenRequest
ask = record { name = none; expires_in_days = some 2; rate_limit = none }

abbrev pub issued : ApiToken
issued = record token {
  id = 1;
  token_hash = text "k" ++ issued_raw;
  created_at = 10;
  expires_at = some 172800000000010;
}

pub issued-create :
    Token.create crypto manager 1 (some (5 ∷ 6 ∷ [])) 10 2000000000 ask
    ≡ some (
        ok (
          issued,
          record { id = 1; token = token_prefix ++ issued_raw; expires_at = some 172800000000010 },
        ))
unfolding Token.create generate_raw_token raw_from be_bytes le_bytes add_days issue hash_token
issued-create = refl

-- Two tokens, one revoked, and the other deleted.
abbrev calls : List Call
calls =
    create_token token
    ∷ create_token second
    ∷ revoke_token 30 7
    ∷ find_by_hash (text "kraw")
    ∷ delete_token 8
    ∷ get_token 8
    ∷ []

perform_all_meets_example :
    AllMeet calls Refinement.no_tokens (perform_all plain calls (empty plain))
perform_all_meets_example = perform_all_meets plain calls (
  (refl, λ u e h. ground (arith, e)),
  ((refl, λ u e h. ground (arith, e, h)), (tt, (tt, (tt, (tt, tt))))),
)
