-- ===== src/Core/Analysis.antt =====
-- crates/ironfish-core/src/types/analysis.rs: requests for an analysis, and its results.
use ironfish.Base.{ℕ, Option, none, some, List, Text, ℤ, ltb, if◌then◌else◌}
use ironfish.Core.Chess.{Move}

pub data ScoreType : Type 0 where
  centipawns_score mate_score : ScoreType

pub record Evaluation : Type 0 where
  pub score_type : ScoreType
  pub value : ℤ

abbrev pub centipawns : ℤ → Evaluation
centipawns cp = record { score_type = centipawns_score; value = cp }

abbrev pub mate : ℤ → Evaluation
mate moves = record { score_type = mate_score; value = moves }

-- An id of a request is the number of its bits.
pub record AnalysisRequest : Type 0 where
  pub id : ℕ
  pub fen : Text
  pub depth : ℕ
  pub multipv : ℕ
  pub movetime : Option ℕ

-- `max(1)`
abbrev pub at_least_one : ℕ → ℕ
at_least_one n = if ltb n 1 then 1 else n

-- The id is `Uuid::new_v4`'s.
abbrev pub new_request : ℕ → Text → AnalysisRequest
new_request id fen = record { id = id; fen = fen; depth = 20; multipv = 1; movetime = none }

abbrev pub with_depth : ℕ → AnalysisRequest → AnalysisRequest
with_depth depth r = record r { depth = depth }

abbrev pub with_multipv : ℕ → AnalysisRequest → AnalysisRequest
with_multipv multipv r = record r { multipv = at_least_one multipv }

abbrev pub with_movetime : ℕ → AnalysisRequest → AnalysisRequest
with_movetime ms r = record r { movetime = some ms }

pub record PrincipalVariation : Type 0 where
  pub rank : ℕ
  pub moves : List Move
  pub evaluation : Evaluation
  pub depth : ℕ

pub record AnalysisResult : Type 0 where
  pub id : ℕ
  pub fen : Text
  pub best_move : Move
  pub ponder : Option Move
  pub evaluation : Evaluation
  pub principal_variations : List PrincipalVariation
  pub depth_reached : ℕ
  pub nodes_searched : ℕ
  pub time_ms : ℕ
  pub completed_at : ℕ

pub record AnalysisProgress : Type 0 where
  pub id : ℕ
  pub current_depth : ℕ
  pub target_depth : ℕ
  pub current_move : Option Move
  pub nodes_per_second : ℕ
  pub hash_full : ℕ
  pub evaluation : Option Evaluation
  pub principal_variations : List PrincipalVariation

pub record BestMoveRequest : Type 0 where
  pub fen : Text
  pub movetime : Option ℕ

abbrev pub new_best_move_request : Text → BestMoveRequest
new_best_move_request fen = record { fen = fen; movetime = some 1000 }

pub record BestMoveResponse : Type 0 where
  pub best_move : Move
  pub ponder : Option Move
