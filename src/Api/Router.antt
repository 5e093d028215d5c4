-- ===== src/Api/Router.antt =====
-- crates/ironfish-api/src/rest/mod.rs, graphql/schema.rs and router.rs: the table of routes, and the
-- layers and fallback around it. Which paths a pattern matches is `axum`'s. The layers for traces,
-- compression and CORS, which answers preflight requests, are left out.
pub mod Guards
pub mod Handled
pub mod Unguarded
use ironfish.Base.{
  Bool, true, false, Option, none, some, List, [], ◌∷◌, ◌++◌, Text, text, map, if◌then◌else◌,
}
use ironfish.Core.Cluster.{DateTime}
use ironfish.Auth.Token.{Crypto}
use ironfish.Auth.Store.{Codec, Store}
use ironfish.Auth.Middleware.{
  Method, get_method, other_method, Request, Response, inner, unauthorized, forbidden,
  internal_error, AuthLayer, call,
}

pub data Verb : Type 0 where
  get head post delete other : Verb

pub data Handler : Type 0 where
  analyze get_analysis best_move health metrics ws_handler : Handler
  cluster_status cluster_join cluster_leave list_tokens create_token revoke_token : Handler
  health_simple metrics_simple graphql_handler graphql_playground : Handler

-- A pattern with what answers each verb.
pub record Route : Type 0 where
  pub pattern : Text
  pub methods : List (Verb × Handler)

abbrev pub route : Text → List (Verb × Handler) → Route
route pattern methods = record { pattern = pattern; methods = methods }

abbrev pub nest : Text → List Route → List Route
nest prefix routes = map (λ (r : Route). route (prefix ++ r.pattern) r.methods) routes

unfoldable pub api_routes : List Route
api_routes =
    route (text "/analyze") ((post, analyze) ∷ [])
    ∷ route (text "/analyze/{id}") ((get, get_analysis) ∷ [])
    ∷ route (text "/bestmove") ((post, best_move) ∷ [])
    ∷ route (text "/health") ((get, health) ∷ [])
    ∷ route (text "/metrics") ((get, metrics) ∷ [])
    ∷ route (text "/ws") ((get, ws_handler) ∷ [])
    ∷ []

unfoldable pub admin_routes : List Route
admin_routes =
    route (text "/cluster/status") ((get, cluster_status) ∷ [])
    ∷ route (text "/cluster/join") ((post, cluster_join) ∷ [])
    ∷ route (text "/cluster/leave") ((post, cluster_leave) ∷ [])
    ∷ route (text "/tokens") ((get, list_tokens) ∷ (post, create_token) ∷ [])
    ∷ route (text "/tokens/{id}") ((delete, revoke_token) ∷ [])
    ∷ []

unfoldable pub rest_routes : List Route
unfolding api_routes admin_routes
rest_routes =
    nest (text "/v1") api_routes
    ++ (nest (text "/_admin") admin_routes
        ++ route (text "/health") ((get, health_simple) ∷ [])
          ∷ route (text "/metrics") ((get, metrics_simple) ∷ [])
          ∷ [])

unfoldable pub graphql_routes : List Route
graphql_routes =
    route (text "/graphql") ((post, graphql_handler) ∷ (get, graphql_playground) ∷ []) ∷ []

-- The REST routes merged with GraphQL's.
unfoldable pub routes : List Route
unfolding rest_routes graphql_routes
routes = rest_routes ++ graphql_routes

pub record HttpRequest : Type 0 where
  pub path : Text
  pub verb : Verb
  pub admin_key : Option Text
  pub authorization : Option Text

abbrev pub method_of : Verb → Method
method_of get = get_method
method_of _ = other_method

-- The request as the layer sees it.
abbrev pub seen : HttpRequest → Request
seen req = record {
  path = req.path;
  method = method_of req.verb;
  admin_key = req.admin_key;
  authorization = req.authorization;
}

-- What answers a request: a handler, the layer, the router for a verb without a handler, or gRPC.
pub data Served : Type 0 where
  handled : Handler → Served
  rejected : Response → Served
  method_not_allowed grpc : Served

unfoldable pub find_route : (Text → Text → Bool) → Text → List Route → Option Route
find_route matches path [] = none
find_route matches path (r ∷ rs) =
    let rest = find_route matches path rs in if matches r.pattern path then some r else rest

-- Whether the handler for a verb answers another: `get` answers HEAD too.
abbrev pub same_verb : Verb → Verb → Bool
same_verb get get = true
same_verb get head = true
same_verb post post = true
same_verb delete delete = true
same_verb other other = true
same_verb _ _ = false

unfoldable pub pick : Verb → List (Verb × Handler) → Option Handler
pick verb [] = none
pick verb ((v, h) ∷ rest) = let later = pick verb rest in if same_verb v verb then some h else later

abbrev pub answered : Option Handler → Served
answered none = method_not_allowed
answered (some h) = handled h

-- What is behind the layer, if that lets the request through.
abbrev pub behind : Response → Served → Served
behind inner served = served
behind (unauthorized m) served = rejected (unauthorized m)
behind (forbidden m) served = rejected (forbidden m)
behind (internal_error m) served = rejected (internal_error m)

module _ (codec : Codec) (c : Crypto) where
  -- `build_rest_router`: the layer wraps the routes that are there.
  unfoldable pub rest_router :
      Bool → AuthLayer codec c → DateTime → DateTime → HttpRequest → Route → Store codec → Served
  unfolding pick
  rest_router auth_enabled layer now then_ req r s =
      if auth_enabled
      then behind (call codec c layer now then_ (seen req) s).0.0
          (answered (pick req.verb r.methods))
      else answered (pick req.verb r.methods)

  unfoldable pub routed :
      Bool
      → AuthLayer codec c
      → DateTime
      → DateTime
      → HttpRequest
      → Option Route
      → Store codec
      → Served
  unfolding rest_router
  routed auth_enabled layer now then_ req none s = grpc
  routed auth_enabled layer now then_ req (some r) s =
      rest_router auth_enabled layer now then_ req r s

  -- `build_multiplex_service`: what no route matches goes to the fallback, which was added behind
  -- the layer's back.
  unfoldable pub build_multiplex_service :
      (Text → Text → Bool)
      → Bool
      → AuthLayer codec c
      → DateTime
      → DateTime
      → HttpRequest
      → Store codec
      → Served
  unfolding find_route routed routes
  build_multiplex_service matches auth_enabled layer now then_ req s =
      routed auth_enabled layer now then_ req (find_route matches req.path routes) s
