-- ===== src/Api/Rest.antt =====
-- crates/ironfish-api/src/rest/handlers.rs: the REST handlers. A body is the record that it is
-- decoded into, with its defaults, and a reply what is encoded. The parsers of addresses and
-- UUIDs are not of this repository.
pub mod Tokens
use ironfish.Base.{ℕ, ◌%◌, Bool, Option, none, some, List, Text, text, map, ◌++◌}
use ironfish.Core.Error.{Result, ok, err, display}
use ironfish.Core.Cluster.{
  NodeId, DateTime, Float32, SocketAddr, ClusterStatus, JoinRequest, JoinResponse,
}
use ironfish.Core.Token.{
  Uuid, ApiToken, TokenMetadata, from_token, CreateTokenRequest, CreateTokenResponse,
}
use ironfish.Core.Chess.{u32_mod}
use ironfish.Core.Analysis.{
  AnalysisRequest, new_request, with_depth, with_multipv, with_movetime, AnalysisResult,
  BestMoveRequest, BestMoveResponse,
}
use ironfish.Cluster.Node.{id}
use ironfish.Cluster.Membership
use ironfish.Cluster.Membership.{join, leave}
use ironfish.Stockfish.Pool.{EnginePool, available, active}
use ironfish.Stockfish.Service
use ironfish.Stockfish.Service.{StockfishEngine, Answer, pending, panicked, answered, Clock}
use ironfish.Auth.Token
use ironfish.Auth.Token.{Bytes, Crypto}
use ironfish.Auth.Store
use ironfish.Auth.Store.{Codec, Store}
use ironfish.Api.State.{ApiState, node, broadcast_token_created, broadcast_token_revoked}

pub record AnalyzeBody : Type 0 where
  pub fen : Text
  pub depth : ℕ
  pub multipv : ℕ
  pub movetime : Option ℕ

abbrev pub default_depth : ℕ
default_depth = 20

abbrev pub default_multipv : ℕ
default_multipv = 1

pub record BestMoveBody : Type 0 where
  pub fen : Text
  pub movetime : Option ℕ

pub record HealthResponse : Type 0 where
  pub status : Text
  pub node_id : Text
  pub version : Text

pub record MetricsResponse : Type 0 where
  pub cpu_usage : Float32
  pub memory_usage : Float32
  pub active_analyses : ℕ
  pub queue_depth : ℕ
  pub engines_available : ℕ
  pub engines_total : ℕ

pub record JoinBody : Type 0 where
  pub address : Text
  pub priority : Option ℕ

pub record CreateTokenBody : Type 0 where
  pub name : Option Text
  pub expires_in_days : Option ℕ
  pub rate_limit : Option ℕ

-- What a call of a handler comes to: no answer yet, a panic, a status with the text of its
-- `ErrorResponse`, or what it replies.
pub data Reply (A : Type 0) : Type 0 where
  unanswered crashed : Reply A
  refused : ℕ → Text → Reply A
  replied : A → Reply A

abbrev pub bad_request : ℕ
bad_request = 400

abbrev pub not_found : ℕ
not_found = 404

abbrev pub internal_server_error : ℕ
internal_server_error = 500

-- A result, with the status of its errors.
abbrev pub reply_or : {A : Type 0} → ℕ → Result A → Reply A
reply_or status (ok a) = replied a
reply_or status (err e) = refused status (display e)

abbrev pub reply_of : {A : Type 0} → Answer A → Reply A
reply_of pending = unanswered
reply_of panicked = crashed
reply_of (answered r) = reply_or bad_request r

abbrev limited : Option ℕ → AnalysisRequest → AnalysisRequest
limited none r = r
limited (some ms) r = with_movetime ms r

-- The request, whose random identifier is given.
unfoldable pub request_of : Uuid → AnalyzeBody → AnalysisRequest
request_of fresh body =
    limited body.movetime
      (with_multipv body.multipv (with_depth body.depth (new_request fresh body.fen)))

unfoldable pub get_analysis : Text → Reply AnalysisResult
get_analysis id = refused not_found (text "analysis " ++ (id ++ text " not found"))

unfoldable pub health_simple : Text
health_simple = text "healthy"

unfoldable pub metrics_simple : Text
metrics_simple = text "ok"

abbrev pool_counts : Option EnginePool → ℕ × ℕ × ℕ
pool_counts none = (0, 0, 0)
pool_counts (some p) = (active p % u32_mod, available p % u32_mod, p.size % u32_mod)

-- `pool` is the service's, and the readings of the system are given.
unfoldable pub metrics : Option EnginePool → Float32 → Float32 → MetricsResponse
metrics pool cpu_usage memory_usage =
    let (active, available, total) = pool_counts pool in
    record {
      cpu_usage = cpu_usage;
      memory_usage = memory_usage;
      active_analyses = active;
      queue_depth = 0;
      engines_available = available;
      engines_total = total;
    }

abbrev priority_or : Option ℕ → ℕ
priority_or none = 100
priority_or (some p) = p

module _ (codec : Codec) (c : Crypto) where
  unfoldable pub analyze :
      AnalyzeBody
      → Uuid
      → Result (Unit {0})
      → Clock
      → ℕ
      → ℕ
      → ApiState codec c
      → StockfishEngine
      → Reply AnalysisResult × StockfishEngine
  unfolding request_of
  analyze body fresh acquire t elapsed now st e =
      let (a, e') = Service.analyze st.analysis (request_of fresh body) acquire t elapsed now e in
      (reply_of a, e')

  unfoldable pub best_move :
      BestMoveBody
      → Result (Unit {0})
      → Clock
      → ApiState codec c
      → StockfishEngine
      → Reply BestMoveResponse × StockfishEngine
  best_move body acquire t st e =
      let request : BestMoveRequest = record { fen = body.fen; movetime = body.movetime } in
      let (a, e') = Service.best_move st.analysis request acquire t e in (reply_of a, e')

  unfoldable pub health : ApiState codec c → HealthResponse
  health st = record {
    status = text "healthy";
    node_id = id (node codec c st);
    version = (node codec c st).info.version;
  }

  unfoldable pub cluster_status : DateTime → ApiState codec c → ClusterStatus
  cluster_status now st = Membership.cluster_status now st.membership

  -- `parse` reads the address; the new node's identifier and the clock are given.
  unfoldable pub cluster_join :
      (Text → Option SocketAddr)
      → NodeId
      → DateTime
      → JoinBody
      → ApiState codec c
      → Reply JoinResponse × ApiState codec c
  cluster_join parse fresh now body st = elim (parse body.address) [
    | none ↦ (refused bad_request (text "invalid address"), st)
    | some address ↦
        let (m, response) =
          join
            (record {
              node_info = record {
                id = fresh;
                address = address;
                priority = priority_or body.priority;
                started_at = now;
                version = text "unknown";
              };
            })
            st.membership in
        (replied response, record st { membership = m })
  ]

  unfoldable pub cluster_leave : ApiState codec c → Reply (Unit {0}) × ApiState codec c
  cluster_leave st =
      (replied tt, record st { membership = leave (id (node codec c st)) st.membership })
