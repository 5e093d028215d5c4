-- ===== src/Api/Session/Tasks/Cancelled.antt =====
-- The end of an analysis that its client has cancelled.
use ironfish.Base.{
  ℕ, ◌<◌, ◌+◌, true, false, none, some, List, [], ◌∷◌, ◌++◌, Text, text, trim, starts_with, length,
  map, All, get, get-remove, nat_eq, nat_eqb_iff, ◌≡◌, refl, sym, ◌∙◌, ap, arith,
}
use mathlib.Core.List.{append_assoc, append-nil}
use ironfish.Core.Error.{Result, ok}
use ironfish.Core.Chess.{validate}
use ironfish.Core.Analysis.{at_least_one, AnalysisRequest, AnalysisProgress}
use ironfish.Stockfish.Uci.{BestMove, parse_best_move}
use ironfish.Stockfish.Analysis.Output.{oks}
use ironfish.Stockfish.Streaming.Equivalence.{ReadableRead}
use ironfish.Stockfish.Service.{
  Command, set_multipv, go_depth, position, is_ready, stop, StockfishEngine, Clock, AnalysisService,
}
use ironfish.Stockfish.Service.Streamed.Cancellation.{analyze_streaming-cancelled}
use ironfish.Api.Session.{was_cancelled, WsSession, send, analysis_ended}
use ironfish.Api.Session.Tasks.{progress_message, forwarded, ended, run_analysis}
use ironfish.Stockfish.Service.Streamed.{analyze_streaming}

forwarded_lem :
    (ps : List AnalysisProgress) (s : WsSession)
    → let s' = forwarded ps s in
      (s'.sent ≡ s.sent ++ map progress_message ps) × (s'.active_analyses ≡ s.active_analyses)
unfolding forwarded
forwarded_lem [] s = (sym (append-nil s.sent), refl)
forwarded_lem (p ∷ ps) s =
    let (q, r) = forwarded_lem ps (send (progress_message p) s) in
    (q ∙ append_assoc s.sent (progress_message p ∷ []) (map progress_message ps), r)

-- When the token of a session's analysis is cancelled while the engine searches, the client is told
-- that the analysis was cancelled, behind the progress that it has been told of, and the analysis is
-- no longer active. The engine was sent the commands of the search and then `stop`, and is left with
-- just what comes behind the best move that it then names. The best move must come in the time for
-- the whole analysis, and the moves in what was read before must be such that they can be sliced.
pub run_analysis-cancelled :
    (channel : List AnalysisProgress → List AnalysisProgress) (svc : AnalysisService) (id : Text)
    (request : AnalysisRequest) (t : Clock) (elapsed now : ℕ) (sent : List Command)
    (ready best : Text) (early late : List Text) (bm : BestMove) (rest : List (Result Text))
    (s : WsSession)
    → validate (record { fen = request.fen }) ≡ true
    → svc.mock_mode ≡ false
    → svc.has_pool ≡ true
    → starts_with (trim ready) (text "readyok") ≡ true
    → All ReadableRead (oks early)
    → All (λ l. parse_best_move (trim l) ≡ none) early
    → All (λ l. parse_best_move (trim l) ≡ none) late
    → parse_best_move (trim best) ≡ some bm
    → length early + length late < t.in_time
    → let engine : StockfishEngine = record {
      sent = sent;
      writes = [];
      reads = ok ready ∷ (oks early ++ (oks late ++ ok best ∷ rest));
    } in
      let (s', e') =
        run_analysis channel svc id request (ok tt) t elapsed now (some (length early)) engine s in
      ((ps : List AnalysisProgress) × (s'.sent
          ≡ s.sent ++ (map progress_message ps ++ was_cancelled request.id ∷ [])))
      × (get request.id s'.active_analyses ≡ none)
      × (e' ≡ record {
        sent =
            ((((sent ++ is_ready ∷ []) ++ set_multipv (at_least_one request.multipv) ∷ [])
                ++ position request.fen ∷ [])
              ++ go_depth request.depth ∷ [])
            ++ stop ∷ [];
        writes = [];
        reads = rest;
      })
unfolding run_analysis ended analysis_ended
run_analysis-cancelled channel svc id request t elapsed now sent ready best early late bm rest s
      valid real pool is_ready_line readable none_yet later found in_time =
    let ran =
      analyze_streaming-cancelled svc request t elapsed now sent ready best early late bm rest valid
        real pool is_ready_line readable none_yet later found in_time in
    let offered =
      (analyze_streaming svc request (ok tt) t elapsed now (some (length early)) (record {
        sent = sent;
        writes = [];
        reads = ok ready ∷ (oks early ++ (oks late ++ ok best ∷ rest));
      })).1 in
    let (told, active) = forwarded_lem (channel offered) s in
    let all = forwarded (channel offered) s in
    rw ran (
      (
        channel offered,
        ap (λ m. m ++ was_cancelled request.id ∷ []) told
            ∙ append_assoc s.sent (map progress_message (channel offered))
                (was_cancelled request.id ∷ []),
      ),
      ground (
        arith,
        get-remove request.id request.id all.active_analyses,
        nat_eqb_iff request.id request.id,
      ),
      ap (λ x. x.1) ran,
    )
