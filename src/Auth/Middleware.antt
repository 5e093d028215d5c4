-- ===== src/Auth/Middleware.antt =====
-- crates/ironfish-auth/src/middleware.rs: the layer in front of the REST and GraphQL routes. A
-- header is given as `to_str` reads it, `none` where it is absent or not readable.
pub mod Access
pub mod Races
pub mod Issued
use ironfish.Base.{
  ℕ, Bool, true, false, not, ◌&&◌, ◌||◌, Option, none, some, List, [], ◌∷◌, Text, text, text_eq,
  strip_prefix, starts_with, ◌==◌, if◌then◌else◌,
}
use ironfish.Core.Error.{Result, ok, err}
use ironfish.Core.Cluster.{DateTime}
use ironfish.Core.Token.{ApiToken, is_valid}
use ironfish.Auth.Store.{Codec, Store, get_by_hash, update}
use ironfish.Auth.Token.{Crypto, TokenManager, validate_format, extract_raw_token, hash_token}

-- The methods of a request, all but GET alike here.
pub data Method : Type 0 where
  get_method other_method : Method

pub record Request : Type 0 where
  pub path : Text
  pub method : Method
  pub admin_key : Option Text
  pub authorization : Option Text

-- What the layer answers: the inner service's response, or a status with its message.
pub data Response : Type 0 where
  inner : Response
  unauthorized forbidden internal_error : Text → Response

abbrev is_get : Method → Bool
is_get get_method = true
is_get other_method = false

unfoldable pub is_public_path : Request → Bool
is_public_path req =
    req.path == text "/v1/health"
    || req.path == text "/health"
    || req.path == text "/metrics"
    || req.path == text "/v1/ws"
    || req.path == text "/ws"
    || (req.path == text "/graphql" && is_get req.method)

unfoldable pub is_admin_path : Request → Bool
is_admin_path req = starts_with req.path (text "/_admin")

unfoldable pub admin_response : Option Text → Option Text → Response
admin_response (some expected) (some provided) =
    if expected == provided then inner else unauthorized (text "invalid or missing admin key")
admin_response (some expected) none = unauthorized (text "invalid or missing admin key")
admin_response none provided =
    forbidden (text "admin endpoints require IRONFISH_ADMIN_KEY to be set")

-- The token's text behind `Bearer `.
abbrev pub bearer : Option Text → Option Text
bearer none = none
bearer (some h) = strip_prefix (text "Bearer ") h

module _ (codec : Codec) (c : Crypto) where
  pub record AuthLayer : Type 0 where
    pub manager : TokenManager c
    pub enabled : Bool
    pub admin_key : Option Text

  -- With a token found: the response, and the update that a task of its own will make.
  unfoldable pub found : DateTime → DateTime → Result (Option ApiToken) → Response × Option ApiToken
  found now then_ (ok (some t)) =
      if is_valid now t
      then (inner, some (record t { last_used_at = some then_ }))
      else (unauthorized (text "token expired or revoked"), none)
  found now then_ (ok none) = (unauthorized (text "invalid token"), none)
  found now then_ (err e) = (internal_error (text "internal error"), none)

  unfoldable pub look_up :
      AuthLayer
      → DateTime
      → DateTime
      → Text
      → Store codec
      → (Response × Option ApiToken) × Store codec
  look_up layer now then_ raw s =
      let (r, s') = get_by_hash codec (hash_token c layer.manager raw) s in (found now then_ r, s')

  unfoldable pub by_raw :
      AuthLayer
      → DateTime
      → DateTime
      → Option Text
      → Store codec
      → (Response × Option ApiToken) × Store codec
  by_raw layer now then_ none s = ((unauthorized (text "invalid token"), none), s)
  by_raw layer now then_ (some raw) s = look_up layer now then_ raw s

  unfoldable pub by_token :
      AuthLayer
      → DateTime
      → DateTime
      → Option Text
      → Store codec
      → (Response × Option ApiToken) × Store codec
  by_token layer now then_ none s = ((unauthorized (text "missing authorization header"), none), s)
  by_token layer now then_ (some token) s =
      if validate_format c token
      then by_raw layer now then_ (extract_raw_token token) s
      else ((unauthorized (text "invalid token format"), none), s)

  -- `call`, with the two readings of the clock that a valid token takes.
  unfoldable pub call :
      AuthLayer
      → DateTime
      → DateTime
      → Request
      → Store codec
      → (Response × Option ApiToken) × Store codec
  call layer now then_ req s =
      if not layer.enabled
      then ((inner, none), s)
      else if is_public_path req
      then ((inner, none), s)
      else if is_admin_path req
      then ((admin_response layer.admin_key req.admin_key, none), s)
      else by_token layer now then_ (bearer req.authorization) s
