-- ===== src/Api/GraphQl.antt =====
-- crates/ironfish-api/src/graphql/resolvers.rs: the resolvers. The texts of identifiers and
-- addresses, which other crates write and read, are given.
pub mod Tokens
use ironfish.Base.{ℕ, ◌%◌, Bool, Option, none, some, List, [], ◌∷◌, Text, text, map, ℤ}
use ironfish.Core.Error.{Result, ok, err, display}
use ironfish.Core.Cluster.{
  NodeId, DateTime, SocketAddr, NodeState, starting, joining, follower, candidate, leader, leaving,
  dead,
}
use ironfish.Core.Cluster
use ironfish.Core.Token.{Uuid}
use ironfish.Core.Chess
use ironfish.Core.Analysis as Results
use ironfish.Core.Analysis.{
  ScoreType, centipawns_score, mate_score, AnalysisRequest, new_request, with_depth, with_multipv,
  AnalysisResult, BestMoveRequest, BestMoveResponse,
}
use ironfish.Cluster.Membership
use ironfish.Stockfish.Service
use ironfish.Stockfish.Service.{StockfishEngine, Answer, pending, panicked, answered, Clock}
use ironfish.Auth.Token.{Crypto}
use ironfish.Auth.Store.{Codec}
use ironfish.Api.State.{ApiState}

pub record Move : Type 0 where
  pub from : Text
  pub to : Text
  pub promotion : Option Text

pub record Evaluation : Type 0 where
  pub score_type : Text
  pub value : ℤ

pub record PrincipalVariation : Type 0 where
  pub rank : ℕ
  pub moves : List Move
  pub evaluation : Evaluation
  pub depth : ℕ

pub record Analysis : Type 0 where
  pub id : Text
  pub fen : Text
  pub best_move : Move
  pub ponder : Option Move
  pub evaluation : Evaluation
  pub principal_variations : List PrincipalVariation
  pub depth_reached : ℕ
  pub nodes_searched : ℕ
  pub time_ms : ℕ

pub record BestMoveResult : Type 0 where
  pub best_move : Move
  pub ponder : Option Move

pub record NodeStatus : Type 0 where
  pub id : Text
  pub address : Text
  pub state : Text
  pub uptime_seconds : ℕ

pub record ClusterStatus : Type 0 where
  pub nodes : List NodeStatus
  pub leader_id : Option NodeId
  pub term : ℕ
  pub healthy : Bool

-- What a resolver comes to; an error carries the text that it displays.
pub data Resolved (A : Type 0) : Type 0 where
  unanswered crashed : Resolved A
  failed : Text → Resolved A
  resolved : A → Resolved A

abbrev pub resolved_by : {A B : Type 0} → (A → B) → Answer A → Resolved B
resolved_by f pending = unanswered
resolved_by f panicked = crashed
resolved_by f (answered (ok a)) = resolved (f a)
resolved_by f (answered (err e)) = failed (display e)

abbrev pub mapped : {A B : Type 0} → (A → B) → Option A → Option B
mapped f none = none
mapped f (some a) = some (f a)

abbrev move_of : Chess.Move → Move
move_of m = record { from = m.from; to = m.to; promotion = mapped (λ c. c ∷ []) m.promotion }

-- `{:?}` of a score type.
abbrev score_name : ScoreType → Text
score_name centipawns_score = text "Centipawns"
score_name mate_score = text "Mate"

abbrev evaluation_of : Results.Evaluation → Evaluation
evaluation_of e = record { score_type = score_name e.score_type; value = e.value }

abbrev variation_of : Results.PrincipalVariation → PrincipalVariation
variation_of pv = record {
  rank = pv.rank;
  moves = map move_of pv.moves;
  evaluation = evaluation_of pv.evaluation;
  depth = pv.depth;
}

-- The object for a result, with `show` for `to_string` on identifiers.
unfoldable pub analysis_of : (Uuid → Text) → AnalysisResult → Analysis
analysis_of show result = record {
  id = show result.id;
  fen = result.fen;
  best_move = move_of result.best_move;
  ponder = mapped move_of result.ponder;
  evaluation = evaluation_of result.evaluation;
  principal_variations = map variation_of result.principal_variations;
  depth_reached = result.depth_reached;
  nodes_searched = result.nodes_searched;
  time_ms = result.time_ms;
}

unfoldable pub best_move_of : BestMoveResponse → BestMoveResult
best_move_of r = record { best_move = move_of r.best_move; ponder = mapped move_of r.ponder }

-- `as u8`
abbrev pub as_u8 : ℕ → ℕ
as_u8 n = n % 256

abbrev pub or_default : ℕ → Option ℕ → ℕ
or_default d none = d
or_default d (some n) = n

-- `{:?}` of a node's state.
abbrev pub state_name : NodeState → Text
state_name starting = text "Starting"
state_name joining = text "Joining"
state_name follower = text "Follower"
state_name candidate = text "Candidate"
state_name leader = text "Leader"
state_name leaving = text "Leaving"
state_name dead = text "Dead"

abbrev node_status_of : (SocketAddr → Text) → Cluster.NodeStatus → NodeStatus
node_status_of show n = record {
  id = n.info.id;
  address = show n.info.address;
  state = state_name n.state;
  uptime_seconds = n.uptime_seconds;
}

unfoldable pub status_of : (SocketAddr → Text) → Cluster.ClusterStatus → ClusterStatus
status_of show status = record {
  nodes = map (node_status_of show) status.nodes;
  leader_id = status.leader;
  term = status.term;
  healthy = status.healthy;
}

module _ (codec : Codec) (c : Crypto) where
  -- The request's identifier, the engine's answers and the clocks are given.
  unfoldable pub analyze :
      (Uuid → Text)
      → Uuid
      → Text
      → Option ℕ
      → Option ℕ
      → Result (Unit {0})
      → Clock
      → ℕ
      → ℕ
      → ApiState codec c
      → StockfishEngine
      → Resolved Analysis × StockfishEngine
  unfolding analysis_of
  analyze show fresh fen depth multipv acquire t elapsed now st e =
      let request : AnalysisRequest =
        with_multipv (as_u8 (or_default 1 multipv))
          (with_depth (as_u8 (or_default 20 depth)) (new_request fresh fen)) in
      let (a, e') = Service.analyze st.analysis request acquire t elapsed now e in
      (resolved_by (analysis_of show) a, e')

  unfoldable pub best_move :
      Text
      → Option ℕ
      → Result (Unit {0})
      → Clock
      → ApiState codec c
      → StockfishEngine
      → Resolved BestMoveResult × StockfishEngine
  unfolding best_move_of
  best_move fen movetime acquire t st e =
      let request : BestMoveRequest = record { fen = fen; movetime = movetime } in
      let (a, e') = Service.best_move st.analysis request acquire t e in
      (resolved_by best_move_of a, e')

  unfoldable pub start_analysis :
      (Uuid → Text)
      → Uuid
      → Text
      → Option ℕ
      → Result (Unit {0})
      → Clock
      → ℕ
      → ℕ
      → ApiState codec c
      → StockfishEngine
      → Resolved Text × StockfishEngine
  start_analysis show fresh fen depth acquire t elapsed now st e =
      let request : AnalysisRequest =
        with_depth (as_u8 (or_default 20 depth)) (new_request fresh fen) in
      let (a, e') = Service.analyze st.analysis request acquire t elapsed now e in
      (resolved_by (λ (r : AnalysisResult). show r.id) a, e')

  unfoldable pub cluster_status : (SocketAddr → Text) → DateTime → ApiState codec c → ClusterStatus
  unfolding status_of
  cluster_status show now st = status_of show (Membership.cluster_status now st.membership)
