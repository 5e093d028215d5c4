-- ===== src/Api/Examples/Requests.antt =====
-- Requests to the APIs, and a connection.
use ironfish.Base.{
  Bool, true, false, none, some, List, [], ◌∷◌, Text, text, text_eq, nat_eq, strip_prefix,
  starts_with, get, ◌==◌, if◌then◌else◌, ◌≡◌, refl, sym, ap, ◌⊎◌, inl, inr, text_eqb_iff,
  Bool-cases, arith, ◌≤◌, ◌<◌,
}
use ironfish.Core.Error.{ok}
use ironfish.Core.Token.{Uuid}
use ironfish.Cluster.Membership
use ironfish.Cluster.Membership.{is_member}
use ironfish.Cluster.Examples.{chief}
use ironfish.Stockfish.Service
use ironfish.Stockfish.Service.{StockfishEngine, Clock}
use ironfish.Auth.Middleware.{AuthLayer, is_admin_path, is_public_path, call, admin_response}
use ironfish.Auth.Examples.{plain, crypto, manager, store, no_tokens}
use ironfish.Api.Session
use ironfish.Api.Session.{auth, subscribe}
use ironfish.Api.Manager
use ironfish.Api.State.{ApiState, default_ws_config}
use ironfish.Api.Rest
use ironfish.Api.Grpc
use ironfish.Api.Grpc.{AnalyzeRequest, analyze_response}
use ironfish.Api.Grpc.Cluster.{JoinRequest, join_cluster}
use ironfish.Api.GraphQl.Tokens as GraphQlTokens
use ironfish.Api.Agreement.{status_for, analyze-agrees, create_token-silent, cluster_leave_stays}
use ironfish.Api.Router.{
  HttpRequest, get as get_verb, list_tokens, build_multiplex_service, handled, routed, rest_router,
}
use ironfish.Api.Router.Guards.{Matching, literal, has_parameter}
use ironfish.Api.Router.Handled.{build_multiplex_service-Shown}
use ironfish.Api.Router.Unguarded.{join_cluster-unguarded}
use ironfish.Api.Socket.{Connection, Event, received, tick, authenticate, handle_socket, Phase}
use ironfish.Api.Socket.Phases.{Before, authenticate-Before}
use ironfish.Api.Socket.Gone.{IsGone, handle_socket-IsGone}

abbrev pub state : ApiState plain crypto
state = record {
  analysis = Service.new_mock;
  token_store = no_tokens;
  token_manager = manager;
  membership = Membership.new chief;
  gossip_tx = some [];
  ws_sessions = Manager.new 2;
  ws_config = default_ws_config;
}

abbrev show : Uuid → Text
show n = n ∷ []

abbrev engine : StockfishEngine
engine = record { sent = []; writes = []; reads = [] }

abbrev question : AnalyzeRequest
question = record {
  fen = text "8/8/8/8/8/8/8/8 w - -";
  depth = 276;
  multipv = 1;
  movetime_ms = none;
}

-- Depth 276 is depth 20.
analyze-agrees_example :
    (Grpc.analyze plain crypto show 3 question
      (ok tt)
      (record { in_time = 1; drained = 1 })
      4
      5
      state
      engine).0
    ≡ status_for
        (analyze_response show)
        (Rest.analyze plain crypto
          (record { fen = text "8/8/8/8/8/8/8/8 w - -"; depth = 20; multipv = 1; movetime = none })
          3
          (ok tt)
          (record { in_time = 1; drained = 1 })
          4
          5
          state
          engine).0
analyze-agrees_example =
    ap (λ z. z.0)
      (analyze-agrees plain crypto show 3 question (text "startpos") none none (ok tt)
        (record { in_time = 1; drained = 1 }) 4 5 state engine).0

create_token-silent_example :
    (GraphQlTokens.create_token plain crypto show 1
      (some (5 ∷ 6 ∷ []))
      10
      20
      none
      state).1.gossip_tx
    ≡ some []
create_token-silent_example =
    (create_token-silent plain crypto show 1 (some (5 ∷ 6 ∷ [])) 10 20 none state).2

cluster_leave_stays_example :
    is_member (text "b") (Rest.cluster_leave plain crypto state).1.membership ≡ true
unfolding Membership.new Membership.get_member get
cluster_leave_stays_example = (cluster_leave_stays plain crypto state refl).2

-- A matching for which a pattern with a parameter matches all that starts like it.
abbrev loose : Text → Text → Bool
loose p path = if has_parameter p then starts_with path (literal p) else p == path

literal_self : (p : Text) → has_parameter p ≡ false → literal p ≡ p
literal_self [] e = refl
literal_self (ch ∷ p) e = ground (arith, literal_self p, e)

starts_with_self : (p : Text) → starts_with p p ≡ true
unfolding strip_prefix
starts_with_self [] = refl
starts_with_self (ch ∷ p) = ground (arith, starts_with_self p)

loose_exact : (p path : Text) → has_parameter p ≡ false → loose p path ≡ true → path ≡ p
loose_exact p path e h = sym ((text_eqb_iff p path).0 (ground (arith, e, h)))

loose_prefixed : (p path : Text) → loose p path ≡ true → starts_with path (literal p) ≡ true
loose_prefixed p path h = elim (Bool-cases (has_parameter p)) [
  | inl e ↦ ground (arith, e, h)
  | inr e ↦
      let same = (text_eqb_iff p path).0 (ground (arith, e, h)) in
      ground (arith, literal_self p e, starts_with_self p, same)
]

abbrev matching : Matching
matching = record { matches = loose; exact = loose_exact; prefixed = loose_prefixed }

abbrev pub guarded : AuthLayer plain crypto
guarded = record { manager = manager; enabled = true; admin_key = some (text "secret") }

abbrev asks : HttpRequest
asks = record {
  path = text "/_admin/tokens";
  verb = get_verb;
  admin_key = some (text "secret");
  authorization = none;
}

asks-handled :
    build_multiplex_service plain crypto loose true guarded 20 21 asks store ≡ handled list_tokens
unfolding build_multiplex_service routed rest_router call is_public_path is_admin_path
    admin_response strip_prefix
asks-handled = refl

build_multiplex_service-Shown_example :
    (key : Text) × (guarded.admin_key ≡ some key) × (asks.admin_key ≡ some key)
build_multiplex_service-Shown_example =
    build_multiplex_service-Shown plain crypto matching guarded 20 21 asks store list_tokens refl
      asks-handled

abbrev stranger : JoinRequest
stranger = record { node_id = text "x"; address = text "6.6.6.6:1"; priority = 9 }

join_cluster-unguarded_example :
    is_member
      (text "x")
      (join_cluster plain crypto
        (λ a. some (record { ip = 6; port = 1 }))
        30
        stranger
        state).1.membership
    ≡ true
unfolding Membership.new
join_cluster-unguarded_example =
    (join_cluster-unguarded plain crypto matching guarded 20 21
      (record asks { path = text "/chess.ClusterAdmin/JoinCluster"; admin_key = none })
      (text "ClusterAdmin/JoinCluster") store (λ a. some (record { ip = 6; port = 1 })) 30 stranger
      (record { ip = 6; port = 1 }) state refl refl refl).1

abbrev connection : Connection plain crypto
connection = record { session = Session.new 4 2; store = store; sessions = Manager.new 2 }

-- It asks for a topic, and then shows its token.
abbrev events : List Event
events =
    received 20 5 (subscribe (text "a") (text "topic" ∷ []))
    ∷ received 20 6 (auth (text "b") (text "iff_raw"))
    ∷ tick
    ∷ []

authenticate-Before_example :
    Before plain crypto manager events store (authenticate plain crypto manager events connection)
unfolding Session.new
authenticate-Before_example =
    authenticate-Before plain crypto manager events connection refl (refl, refl, refl)

handle_socket-IsGone_example :
    ((2 ≤ Manager.session_count (Manager.new 2))
      × (handle_socket plain crypto manager 4 2 false events store (Manager.new 2) ≡ none))
    ⊎ ((Manager.session_count (Manager.new 2) < 2)
        × ((p : Phase plain crypto) × (handle_socket plain crypto manager 4 2 false events store
                (Manager.new 2)
              ≡ some p)
            × IsGone plain crypto p))
unfolding Manager.new
handle_socket-IsGone_example =
    handle_socket-IsGone plain crypto manager 4 2 false events store (Manager.new 2)
