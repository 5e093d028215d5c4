-- ===== src/Api/Router/Handled.antt =====
-- What a request has shown when a handler gets it, and what gets to gRPC.
use ironfish.Base.{
  true, Option, none, some, ◌++◌, Text, text, text_eq, All-In, ◌≡◌, refl, inl, inr, arith,
}
use ironfish.Core.Cluster.{DateTime}
use ironfish.Core.Token.{ApiToken}
use ironfish.Auth.Token.{Crypto, token_prefix}
use ironfish.Auth.Store.{Codec, Store}
use ironfish.Auth.Middleware.{
  Response, inner, unauthorized, forbidden, internal_error, AuthLayer, is_public_path,
  is_admin_path,
}
use ironfish.Auth.Middleware.Access.{Accepts, Allowed, call-inner_iff}
use ironfish.Api.Router.{
  Handler, Route, routes, HttpRequest, seen, handled, answered, behind, find_route, rest_router,
  routed, build_multiplex_service,
}
use ironfish.Api.Router.Guards.{
  Matching, Access, open_access, token_access, admin_access, access, stands, RouteOk,
  routes-RouteOk, find_route-some,
}

behind-handled :
    (r : Response) (o : Option Handler) (h : Handler)
    → behind r (answered o) ≡ handled h
    → (r ≡ inner) × (o ≡ some h)
behind-handled inner none h e = ground (arith, e)
behind-handled inner (some k) h e = ground (arith, e)
behind-handled (unauthorized m) o h e = ground (arith, e)
behind-handled (forbidden m) o h e = ground (arith, e)
behind-handled (internal_error m) o h e = ground (arith, e)

module _ (codec : Codec) (c : Crypto) where
  -- A valid token of the request, or the admin key.
  abbrev pub Shown : Access → AuthLayer codec c → DateTime → HttpRequest → Store codec → Type 0
  Shown open_access layer now req s = Unit
  Shown token_access layer now req s =
      (raw : Text) × (t : ApiToken) × (req.authorization
        ≡ some (text "Bearer " ++ (token_prefix ++ raw)))
      × Accepts codec c layer now s raw t
  Shown admin_access layer now req s =
      (key : Text) × (layer.admin_key ≡ some key) × (req.admin_key ≡ some key)

  module _ (m : Matching) (layer : AuthLayer codec c) (now then_ : DateTime) where
    Allowed-Shown :
        (a : Access) (req : HttpRequest) (s : Store codec)
        → layer.enabled ≡ true
        → stands a req.path req.verb ≡ true
        → Allowed codec c layer now (seen req) s
        → Shown a layer now req s
    unfolding is_public_path is_admin_path
    Allowed-Shown open_access req s on p w = tt
    Allowed-Shown token_access req s on p (inl off) = absurd (ground (arith, on, off))
    Allowed-Shown token_access req s on p (inr (inl public)) = absurd (ground (arith, p, public))
    Allowed-Shown token_access req s on p (inr (inr (inl admin))) =
        absurd (ground (arith, p, admin.0))
    Allowed-Shown token_access req s on p (inr (inr (inr (q, shown)))) = shown
    Allowed-Shown admin_access req s on p (inl off) = absurd (ground (arith, on, off))
    Allowed-Shown admin_access req s on p (inr (inl public)) = absurd (ground (arith, p, public))
    Allowed-Shown admin_access req s on p (inr (inr (inl (q, shown)))) = shown
    Allowed-Shown admin_access req s on p (inr (inr (inr (q, t)))) = absurd (ground (arith, p, q))

    handled-Shown :
        (req : HttpRequest) (s : Store codec) (h : Handler) (o : Option Route)
        → layer.enabled ≡ true
        → find_route m.matches req.path routes ≡ o
        → routed codec c true layer now then_ req o s ≡ handled h
        → Shown (access h) layer now req s
    unfolding routed rest_router
    handled-Shown req s h none on f e = ground (arith, e)
    handled-Shown req s h (some r) on f e =
        let (through, p) = behind-handled _ _ h e in
        let (place, q) = find_route-some m.matches req.path routes r f in
        Allowed-Shown (access h) req s on
          (All-In (RouteOk m) routes r (routes-RouteOk m) place req.path req.verb h q p)
          ((call-inner_iff codec c layer now then_ (seen req) s).0 through)

    -- With authentication on, a request that reaches a handler of the cluster or of tokens in the
    -- REST API has the layer's admin key, and one that reaches a handler for analyses, the metrics
    -- or GraphQL has a valid token.
    pub build_multiplex_service-Shown :
        (req : HttpRequest) (s : Store codec) (h : Handler)
        → layer.enabled ≡ true
        → build_multiplex_service codec c m.matches true layer now then_ req s ≡ handled h
        → Shown (access h) layer now req s
    unfolding build_multiplex_service
    build_multiplex_service-Shown req s h on e =
        handled-Shown req s h (find_route m.matches req.path routes) on refl e
