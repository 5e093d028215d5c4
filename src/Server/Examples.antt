-- ===== src/Server/Examples.antt =====
-- Two nodes that share their tokens, and a configuration.
use ironfish.Base.{
  true, false, none, some, [], ◌∷◌, ◌++◌, text, text_eq, nat_eq, get as find, strip_prefix, ◌≡◌,
  ◌≢◌, refl, arith,
}
use ironfish.Core.Token.{CreateTokenResponse}
use ironfish.Core.Gossip.{GossipMessage}
use ironfish.Cluster.Node.{id}
use ironfish.Cluster.Membership
use ironfish.Cluster.Network
use ironfish.Cluster.Network.{NetworkService, add_peer, broadcast}
use ironfish.Cluster.Service.{receive}
use ironfish.Cluster.Examples.{info, chief}
use ironfish.Auth.Token.{token_prefix}
use ironfish.Auth.Token
use ironfish.Auth.Store
use ironfish.Auth.Store.{create}
use ironfish.Auth.Middleware.{inner, unauthorized, call, is_admin_path, is_public_path}
use ironfish.Auth.Examples.{
  plain, crypto, token, store, store-IsIndexed, layer, request, issued_raw, issued-create,
}
use ironfish.Api.State.{ApiState}
use ironfish.Api.State
use ironfish.Api.Rest.{CreateTokenBody, replied}
use ironfish.Api.Rest.Tokens.{create_token, revoke_token, keep, told, revoked}
use ironfish.Api.Examples.Requests.{state}
use ironfish.Server.Config.{Env, insecure_secret, Config, default_bind_address}
use ironfish.Server.Config.Sections.{AuthSection, File, decoded}
use ironfish.Server.Config.Load.{load, no_auth, no_sections}
use ironfish.Server.Config.Secrets.{WrittenIn, load-WrittenIn}
use ironfish.Server.App.Gossip.{envelope}
use ironfish.Server.App.Issue.{create_token-propagates}
use ironfish.Server.App.Revocation.{revoke_token-propagates}

abbrev body : CreateTokenBody
body = record { name = none; expires_in_days = some 2; rate_limit = none }

abbrev answer : CreateTokenResponse
answer = record { id = 1; token = token_prefix ++ issued_raw; expires_at = some 172800000000010 }

answer-replied :
    (create_token plain crypto 1 (some (5 ∷ 6 ∷ [])) 10 2000000000 body state).0 ≡ replied answer
unfolding create_token keep told create
answer-replied = rw (issued-create) refl

abbrev net : NetworkService
net = Network.new (info (text "a") 1)

b_not_a : id chief ≢ text "a"
b_not_a e = ground (arith, e)

-- The node `b` issues a token, and the node `a`, which has another one, lets its owner in.
create_token-propagates_example :
    (m : GossipMessage) × ((create_token plain crypto 1
        (some (5 ∷ 6 ∷ []))
        10
        2000000000
        body
        state).1.gossip_tx
      ≡ some (m ∷ []))
    × ((call plain crypto layer 90 91
          (record request { authorization = some (text "Bearer " ++ (token_prefix ++ issued_raw)) })
          (receive plain 60 net (text "a") (envelope chief 50 m) store).0).0.0
        ≡ inner)
unfolding Network.new Store.get find is_admin_path strip_prefix Membership.new
create_token-propagates_example =
    create_token-propagates plain crypto layer 1 (some (5 ∷ 6 ∷ [])) 10 2000000000 body state []
      answer 50 60 net (text "a") store 172800000000010 90 91
      (record request { authorization = some (text "Bearer " ++ (token_prefix ++ issued_raw)) })
      answer-replied refl refl b_not_a refl refl refl (ground arith) refl refl

-- The node `b` revokes the token that `a` has.
revoke_token-propagates_example :
    (m : GossipMessage) × ((revoke_token plain crypto (λ t. some 7) 30 (text "7") state).1.gossip_tx
      ≡ some (m ∷ []))
    × ((call plain crypto layer 90 91 request
          (receive plain 60 net (text "a") (envelope chief 50 m) store).0).0.0
        ≡ unauthorized (text "token expired or revoked"))
unfolding Network.new Store.get find is_admin_path is_public_path strip_prefix Membership.new
    Token.hash_token Store.revoke revoke_token revoked
revoke_token-propagates_example =
    revoke_token-propagates plain crypto layer (λ t. some 7) 30 (text "7") 7 state [] 50 60 net
      (text "a") token store (text "raw") 90 91 request refl refl refl b_not_a refl store-IsIndexed
      refl refl refl refl refl refl refl

abbrev written : AuthSection
written = record no_auth { token_secret = some insecure_secret }

abbrev file : File
file = record no_sections { auth = some written }

abbrev config : Config
config = record {
  node = record {
    id = text "auto";
    bind_address = record { ip = 0; port = 8080 };
    data_dir = text "/var/lib/ironfish";
    priority = 100;
  };
  stockfish = record {
    binary_path = text "/usr/local/bin/stockfish";
    pool_size = 4;
    default_depth = 20;
    default_multipv = 3;
  };
  cluster = record {
    enabled = true;
    heartbeat_interval_ms = 1000;
    election_timeout_ms = 5000;
    gossip_interval_ms = 5000;
  };
  discovery = record {
    static_peers = [];
    seed_nodes = [];
    multicast_enabled = true;
    multicast_group = text "239.255.42.98";
    multicast_port = 7878;
  };
  auth = record {
    enabled = true;
    token_ttl_days = 365;
    rate_limit_per_minute = 100;
    token_secret = insecure_secret;
  };
  load_balancer = record {
    strategy = text "cpu_aware";
    cpu_weight = 0x3ECCCCCD;
    queue_weight = 0x3E99999A;
    latency_weight = 0x3E99999A;
  };
  websocket = State.default_ws_config;
}

abbrev empty_env : Env
empty_env name = none

loaded :
    load false empty_env (λ s. some (record { ip = 0; port = 8080 })) (λ path. decoded file)
    ≡ some (some config)
unfolding load default_bind_address
loaded = refl

load-WrittenIn_example : WrittenIn (decoded file) insecure_secret
load-WrittenIn_example =
    load-WrittenIn empty_env (λ s. some (record { ip = 0; port = 8080 })) (λ path. decoded file)
      config loaded refl
