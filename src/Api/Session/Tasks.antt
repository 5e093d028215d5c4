-- ===== src/Api/Session/Tasks.antt =====
-- crates/ironfish-api/src/ws/session.rs: what the tasks do that `handle_analyze` and
-- `handle_bestmove` spawn, run from their start to their end.
pub mod Cancelled
use ironfish.Base.{ℕ, Option, none, some, List, [], ◌∷◌, Text}
use ironfish.Core.Error.{Result, ok, err, display}
use ironfish.Core.Token.{Uuid}
use ironfish.Core.Analysis.{
  AnalysisRequest, AnalysisResult, AnalysisProgress, BestMoveRequest, BestMoveResponse,
}
use ironfish.Stockfish.Service.{
  StockfishEngine, Answer, pending, panicked, answered, Clock, AnalysisService, best_move,
}
use ironfish.Stockfish.Service.Streamed.{analyze_streaming}
use ironfish.Api.Session.{
  ServerMessage, progress, error_message, best_move_result, WsSession, send, analysis_ended,
}

abbrev pub progress_message : AnalysisProgress → ServerMessage
progress_message p =
    progress p.id p.current_depth p.target_depth p.evaluation p.principal_variations
      p.nodes_per_second

-- The inner task, which hands on what comes through the channel until that is closed.
unfoldable pub forwarded : List AnalysisProgress → WsSession → WsSession
forwarded [] s = s
forwarded (p ∷ ps) s = forwarded ps (send (progress_message p) s)

-- A task that waits for its engine, or that has panicked, never comes to its end.
unfoldable pub ended : Text → Uuid → Answer AnalysisResult → WsSession → WsSession
unfolding analysis_ended
ended id analysis_id pending s = s
ended id analysis_id panicked s = s
ended id analysis_id (answered r) s = analysis_ended id analysis_id r s

-- The arguments are those of `analyze_streaming`, and `channel` takes some of what it is offered.
unfoldable pub run_analysis :
    (List AnalysisProgress → List AnalysisProgress)
    → AnalysisService
    → Text
    → AnalysisRequest
    → Result (Unit {0})
    → Clock
    → ℕ
    → ℕ
    → Option ℕ
    → StockfishEngine
    → WsSession
    → WsSession × StockfishEngine
unfolding forwarded ended
run_analysis channel svc id request acquire t elapsed now cancel e s =
    let ((a, e'), offered) = analyze_streaming svc request acquire t elapsed now cancel e in
    (ended id request.id a (forwarded (channel offered) s), e')

unfoldable pub told_move : Text → Answer BestMoveResponse → WsSession → WsSession
told_move id pending s = s
told_move id panicked s = s
told_move id (answered (ok r)) s = send (best_move_result id r) s
told_move id (answered (err e)) s = send (error_message (some id) 500 (display e)) s

unfoldable pub run_best_move :
    AnalysisService
    → Text
    → BestMoveRequest
    → Result (Unit {0})
    → Clock
    → StockfishEngine
    → WsSession
    → WsSession × StockfishEngine
unfolding told_move
run_best_move svc id request acquire t e s =
    let (a, e') = best_move svc request acquire t e in (told_move id a s, e')
