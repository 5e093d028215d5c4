-- ===== src/Api/State.antt =====
-- crates/ironfish-api/src/router.rs: the state that the APIs share. The clones of its `Arc`s are
-- one state. The gossip channel is the list of what was sent into it, the oldest first.
use ironfish.Base.{ℕ, Bool, true, Option, none, some, List, [], ◌∷◌, ◌++◌}
use ironfish.Core.Token.{Uuid, ApiToken}
use ironfish.Core.Gossip.{GossipMessage, token_created, token_revoked}
use ironfish.Cluster.Node.{Node}
use ironfish.Cluster.Membership.{MembershipManager}
use ironfish.Stockfish.Service.{AnalysisService}
use ironfish.Auth.Token.{Crypto, TokenManager}
use ironfish.Auth.Store.{Codec, Store}
use ironfish.Api.Manager.{SessionManager}

pub record WebSocketConfig : Type 0 where
  pub enabled : Bool
  pub max_connections : ℕ
  pub auth_timeout_secs : ℕ
  pub ping_interval_secs : ℕ
  pub max_message_size_bytes : ℕ
  pub max_analyses_per_session : ℕ

-- `WebSocketConfig::default()`
abbrev pub default_ws_config : WebSocketConfig
default_ws_config = record {
  enabled = true;
  max_connections = 256;
  auth_timeout_secs = 5;
  ping_interval_secs = 30;
  max_message_size_bytes = 65536;
  max_analyses_per_session = 4;
}

module _ (codec : Codec) (c : Crypto) where
  -- The node is the one that `membership` shares.
  pub record ApiState : Type 0 where
    pub analysis : AnalysisService
    pub token_store : Store codec
    pub token_manager : TokenManager c
    pub membership : MembershipManager
    pub gossip_tx : Option (List GossipMessage)
    pub ws_sessions : SessionManager
    pub ws_config : WebSocketConfig

  unfoldable pub new :
      AnalysisService
      → Store codec
      → TokenManager c
      → MembershipManager
      → SessionManager
      → WebSocketConfig
      → ApiState
  new analysis token_store token_manager membership ws_sessions ws_config = record {
    analysis = analysis;
    token_store = token_store;
    token_manager = token_manager;
    membership = membership;
    gossip_tx = none;
    ws_sessions = ws_sessions;
    ws_config = ws_config;
  }

  unfoldable pub with_gossip : List GossipMessage → ApiState → ApiState
  with_gossip tx st = record st { gossip_tx = some tx }

  abbrev pub node : ApiState → Node
  node st = st.membership.local_node

  abbrev sent : GossipMessage → Option (List GossipMessage) → Option (List GossipMessage)
  sent m none = none
  sent m (some tx) = some (tx ++ m ∷ [])

  unfoldable pub broadcast_token_created : ApiToken → ApiState → ApiState
  broadcast_token_created t st = record st { gossip_tx = sent (token_created t) st.gossip_tx }

  unfoldable pub broadcast_token_revoked : Uuid → ApiState → ApiState
  broadcast_token_revoked id st = record st { gossip_tx = sent (token_revoked id) st.gossip_tx }
