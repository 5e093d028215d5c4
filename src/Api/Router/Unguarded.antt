-- ===== src/Api/Router/Unguarded.antt =====
-- What reaches the gRPC services.
use ironfish.Base.{
  true, false, Option, none, some, List, [], ◌∷◌, ◌++◌, Text, text, text_eq, text_eqb_iff,
  get-insert, All, starts_with, strip_prefix, ◌≡◌, refl, inl, inr, Bool-cases, arith,
}
use ironfish.Core.Cluster
use ironfish.Core.Cluster.{DateTime, SocketAddr}
use ironfish.Cluster.Node.{is_leader}
use ironfish.Cluster.Membership.{join, admit, is_member, MembershipManager}
use ironfish.Auth.Token.{Crypto}
use ironfish.Auth.Store.{Codec, Store}
use ironfish.Auth.Middleware.{AuthLayer}
use ironfish.Api.State.{ApiState, node}
use ironfish.Api.Grpc.Cluster.{JoinRequest, join_cluster}
use ironfish.Api.Router.{
  Route, routes, HttpRequest, grpc, find_route, routed, build_multiplex_service,
}
use ironfish.Api.Router.Guards.{Matching, literal}

-- A path of the services in `chess.proto`.
abbrev pub service_path : Text → Text
service_path rest = text "/chess." ++ rest

abbrev IsElsewhere : Text → Route → Type 0
IsElsewhere path r = starts_with path (literal r.pattern) ≡ false

unmatched :
    (m : Matching) (path : Text) (r : Route) → IsElsewhere path r → m.matches r.pattern path ≡ false
unmatched m path r e = elim (Bool-cases (m.matches r.pattern path)) [
  | inl q ↦ absurd (ground (arith, e, m.prefixed r.pattern path q))
  | inr q ↦ q
]

find_route-none :
    (m : Matching) (path : Text) (rs : List Route)
    → All (IsElsewhere path) rs
    → find_route m.matches path rs ≡ none
unfolding find_route
find_route-none m path [] e = refl
find_route-none m path (r ∷ rs) e = rw (unmatched m path r e.0, find_route-none m path rs e.1) refl

routes-IsElsewhere : (rest : Text) → All (IsElsewhere (service_path rest)) routes
unfolding routes strip_prefix
routes-IsElsewhere rest = (
  refl,
  (
    refl,
    (
      refl,
      (refl, (refl, (refl, (refl, (refl, (refl, (refl, (refl, (refl, (refl, (refl, tt))))))))))),
    ),
  ),
)

join-is_member :
    (ask : Cluster.JoinRequest) (m : MembershipManager)
    → is_leader m.local_node ≡ true
    → is_member ask.node_info.id (join ask m).0 ≡ true
unfolding join admit is_member
join-is_member ask m leads = ground (
  arith,
  leads,
  get-insert ask.node_info.id ask.node_info.id ask.node_info m.members,
  text_eqb_iff ask.node_info.id ask.node_info.id,
)

module _ (codec : Codec) (c : Crypto) where
  -- A request for a path of the gRPC services reaches them with authentication on, whatever it has
  -- for a token or key; and there anyone who asks a leader to join, with an address that can be read,
  -- is made a member of the cluster.
  pub join_cluster-unguarded :
      (m : Matching) (layer : AuthLayer codec c) (now then_ : DateTime) (req : HttpRequest)
      (rest : Text) (s : Store codec) (parse : Text → Option SocketAddr) (joined : DateTime)
      (ask : JoinRequest) (address : SocketAddr) (st : ApiState codec c)
      → req.path ≡ service_path rest
      → parse ask.address ≡ some address
      → is_leader (node codec c st) ≡ true
      → (build_multiplex_service codec c m.matches true layer now then_ req s ≡ grpc)
        × (is_member ask.node_id (join_cluster codec c parse joined ask st).1.membership ≡ true)
  unfolding build_multiplex_service routed join_cluster is_member
  join_cluster-unguarded m layer now then_ req rest s parse joined ask address st path p leads = (
    rw (path, find_route-none m (service_path rest) routes (routes-IsElsewhere rest)) refl,
    rw (join_cluster, p) (join-is_member _ st.membership leads),
  )
