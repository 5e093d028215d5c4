-- ===== src/Api/Grpc.antt =====
-- crates/ironfish-api/src/grpc/service.rs: the two gRPC services; the messages are those of
-- crates/ironfish-api/proto/chess.proto. The texts of identifiers and addresses are given.
pub mod Cluster
use ironfish.Base.{ℕ, Option, none, some, List, [], ◌∷◌, Text, map, ℤ, ◌%◌}
use ironfish.Core.Error.{Result, ok, err, display}
use ironfish.Core.Token.{Uuid}
use ironfish.Core.Chess
use ironfish.Core.Analysis as Results
use ironfish.Core.Analysis.{
  ScoreType, centipawns_score, mate_score, AnalysisRequest, new_request, with_depth, with_multipv,
  with_movetime, AnalysisResult, BestMoveRequest, BestMoveResponse,
}
use ironfish.Stockfish.Service
use ironfish.Stockfish.Service.{StockfishEngine, Answer, pending, panicked, answered, Clock}
use ironfish.Auth.Token.{Crypto}
use ironfish.Auth.Store.{Codec}
use ironfish.Api.State.{ApiState}

pub record AnalyzeRequest : Type 0 where
  pub fen : Text
  pub depth : ℕ
  pub multipv : ℕ
  pub movetime_ms : Option ℕ

pub record Move : Type 0 where
  pub from : Text
  pub to : Text
  pub promotion : Option Text

-- The score type is the number of its enum.
pub record Evaluation : Type 0 where
  pub score_type : ℕ
  pub value : ℤ

pub record PrincipalVariation : Type 0 where
  pub rank : ℕ
  pub moves : List Move
  pub evaluation : Option Evaluation
  pub depth : ℕ

pub record AnalyzeResponse : Type 0 where
  pub id : Text
  pub fen : Text
  pub best_move : Option Move
  pub ponder : Option Move
  pub evaluation : Option Evaluation
  pub principal_variations : List PrincipalVariation
  pub depth_reached : ℕ
  pub nodes_searched : ℕ
  pub time_ms : ℕ

pub record AnalysisUpdate : Type 0 where
  pub id : Text
  pub current_depth : ℕ
  pub target_depth : ℕ
  pub current_move : Option Move
  pub nodes_per_second : ℕ

pub record ProtoBestMoveRequest : Type 0 where
  pub fen : Text
  pub movetime_ms : Option ℕ

pub record ProtoBestMoveResponse : Type 0 where
  pub best_move : Option Move
  pub ponder : Option Move

-- What a call comes to: no answer yet, a panic, a status with its message, or a response.
pub data Status (A : Type 0) : Type 0 where
  unanswered crashed : Status A
  internal invalid_argument : Text → Status A
  response : A → Status A

abbrev pub response_of : {A B : Type 0} → (A → B) → Answer A → Status B
response_of f pending = unanswered
response_of f panicked = crashed
response_of f (answered (ok a)) = response (f a)
response_of f (answered (err e)) = internal (display e)

abbrev mapped : {A B : Type 0} → (A → B) → Option A → Option B
mapped f none = none
mapped f (some a) = some (f a)

abbrev pub move_of : Chess.Move → Move
move_of m = record { from = m.from; to = m.to; promotion = mapped (λ c. c ∷ []) m.promotion }

abbrev pub score_number : ScoreType → ℕ
score_number centipawns_score = 0
score_number mate_score = 1

abbrev pub evaluation_of : Results.Evaluation → Evaluation
evaluation_of e = record { score_type = score_number e.score_type; value = e.value }

abbrev pub variation_of : Results.PrincipalVariation → PrincipalVariation
variation_of pv = record {
  rank = pv.rank;
  moves = map move_of pv.moves;
  evaluation = some (evaluation_of pv.evaluation);
  depth = pv.depth;
}

unfoldable pub analyze_response : (Uuid → Text) → AnalysisResult → AnalyzeResponse
analyze_response show result = record {
  id = show result.id;
  fen = result.fen;
  best_move = some (move_of result.best_move);
  ponder = mapped move_of result.ponder;
  evaluation = some (evaluation_of result.evaluation);
  principal_variations = map variation_of result.principal_variations;
  depth_reached = result.depth_reached;
  nodes_searched = result.nodes_searched;
  time_ms = result.time_ms;
}

unfoldable pub best_move_response : BestMoveResponse → ProtoBestMoveResponse
best_move_response r = record {
  best_move = some (move_of r.best_move);
  ponder = mapped move_of r.ponder;
}

-- `as u8`
abbrev pub as_u8 : ℕ → ℕ
as_u8 n = n % 256

abbrev limited : Option ℕ → AnalysisRequest → AnalysisRequest
limited none r = r
limited (some ms) r = with_movetime ms r

unfoldable pub request_of : Uuid → AnalyzeRequest → AnalysisRequest
request_of fresh req =
    limited req.movetime_ms
      (with_multipv (as_u8 req.multipv) (with_depth (as_u8 req.depth) (new_request fresh req.fen)))

-- The stream of `stream_analysis`, which is one update whatever the position.
unfoldable pub stream_analysis : (Uuid → Text) → Uuid → AnalyzeRequest → List AnalysisUpdate
stream_analysis show fresh req =
    record {
      id = show fresh;
      current_depth = 1;
      target_depth = req.depth;
      current_move = none;
      nodes_per_second = 0;
    }
    ∷ []

module _ (codec : Codec) (c : Crypto) where
  -- The request's identifier, the engine's answers and the clocks are given.
  unfoldable pub analyze :
      (Uuid → Text)
      → Uuid
      → AnalyzeRequest
      → Result (Unit {0})
      → Clock
      → ℕ
      → ℕ
      → ApiState codec c
      → StockfishEngine
      → Status AnalyzeResponse × StockfishEngine
  unfolding request_of analyze_response
  analyze show fresh req acquire t elapsed now st e =
      let (a, e') = Service.analyze st.analysis (request_of fresh req) acquire t elapsed now e in
      (response_of (analyze_response show) a, e')

  unfoldable pub best_move :
      ProtoBestMoveRequest
      → Result (Unit {0})
      → Clock
      → ApiState codec c
      → StockfishEngine
      → Status ProtoBestMoveResponse × StockfishEngine
  unfolding best_move_response
  best_move req acquire t st e =
      let request : BestMoveRequest = record { fen = req.fen; movetime = req.movetime_ms } in
      let (a, e') = Service.best_move st.analysis request acquire t e in
      (response_of best_move_response a, e')
