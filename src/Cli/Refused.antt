-- ===== src/Cli/Refused.antt =====
-- What a server with authentication makes of the client's requests.
use ironfish.Base.{Bool, true, Option, none, some, Text, text_eq, ◌≡◌}
use ironfish.Core.Cluster.{DateTime}
use ironfish.Auth.Token.{Crypto}
use ironfish.Auth.Store.{Codec, Store}
use ironfish.Auth.Middleware.{AuthLayer, admin_response}
use ironfish.Api.Router.{Route, Served, rejected, answered, pick, build_multiplex_service}
use ironfish.Cli.{Commands, node, ClientRequest, received}

abbrev or_request : ClientRequest → Option ClientRequest → ClientRequest
or_request r none = r
or_request r (some r') = r'

module _ (codec : Codec) (c : Crypto) where
  module _ (matches : Text → Text → Bool) (layer : AuthLayer codec c) (now then_ : DateTime)
      (s : Store codec) where
    abbrev served : ClientRequest → Served
    served r = build_multiplex_service codec c matches true layer now then_ (received r) s

    -- How the request for a command is served: by the route, or by the layer's refusal.
    abbrev pub IsServed : Commands → ClientRequest → Route → Type 0
    IsServed (node question) r route = served r ≡ answered (pick r.verb route.methods)
    IsServed _ r route = served r ≡ rejected (admin_response layer.admin_key none)
