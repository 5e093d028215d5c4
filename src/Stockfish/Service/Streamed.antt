-- ===== src/Stockfish/Service/Streamed.antt =====
-- crates/ironfish-stockfish/src/analysis.rs: `analyze_streaming` around its loop, and the progress
-- that a service without engines reports.

pub mod Agreement
pub mod Cancellation
use ironfish.Base.{
  ℕ, zero, suc, Bool, true, false, not, Option, none, some, is_some, List, [], ◌∷◌, ◌++◌, Text,
  text, pos, trim, if◌then◌else◌,
}
use ironfish.Core.Error.{Result, ok, err, engine, invalid_fen, analysis_timeout, analysis_cancelled}
use ironfish.Core.Chess.{validate}
use ironfish.Core.Analysis.{centipawns, AnalysisRequest, AnalysisResult, AnalysisProgress}
use ironfish.Stockfish.Uci.{parse_best_move}
use ironfish.Stockfish.Analysis.{Loop, waiting, failed, done, Collected, nothing, collect_line}
use ironfish.Stockfish.Streaming.{report_line, collect_analysis_streaming}
use ironfish.Stockfish.Service.{
  StockfishEngine, send_command, stop, ensure_ready, send_all, take, drop, behind, stop_and_drain,
  Answer, pending, panicked, answered, Clock, AnalysisService, e2e4, e7e5, mock_analysis_result,
  analysis_commands,
}

-- When the token is cancelled: never, or once the loop has come round a number of times.
abbrev pub is_due : Option ℕ → Bool
is_due (some zero) = true
is_due (some (suc n)) = false
is_due none = false

abbrev pub later : Option ℕ → Option ℕ
later (some zero) = some zero
later (some (suc n)) = some n
later none = none

-- Each read with the token's state just before it.
unfoldable pub marked : Option ℕ → List (Result Text) → List (Bool × Result Text)
marked cancel [] = []
marked cancel (r ∷ reads) = (is_due cancel, r) ∷ marked (later cancel) reads

-- Whether the loop sends `stop`, and what it leaves to read, given what it has collected.
unfoldable pub left :
    AnalysisRequest → Option ℕ → List (Result Text) → Collected → Bool × List (Result Text)
unfolding behind
left request cancel [] c = (is_due cancel, [])
left request cancel (err e ∷ reads) c = (is_due cancel, reads)
left request cancel (ok line ∷ reads) c =
    let now = collect_line (trim line) c in
    let rest = left request (later cancel) reads now in
    if is_due cancel
    then (true, behind (ok line ∷ reads))
    else elim (report_line request (trim line) now) [
      | none ↦ (false, reads)
      | some ps ↦ if is_some (parse_best_move (trim line)) then (false, reads) else rest
    ]

abbrev pub stopped : Bool → StockfishEngine → StockfishEngine
stopped false e = e
stopped true e = (send_command stop e).1

-- `rest` is what the loop leaves of the reads that come in time.
unfoldable pub streamed :
    Clock
    → List (Result Text)
    → StockfishEngine
    → Loop (Option (Result AnalysisResult))
    → Answer AnalysisResult × StockfishEngine
unfolding stop_and_drain
streamed t rest e waiting = (
  answered (err analysis_timeout),
  stop_and_drain t.drained (record e { reads = drop t.in_time e.reads }),
)
streamed t rest e (failed x) =
    (answered (err x), record e { reads = rest ++ drop t.in_time e.reads })
streamed t rest e (done none) = (panicked, record e { reads = rest ++ drop t.in_time e.reads })
streamed t rest e (done (some r)) =
    (answered r, record e { reads = rest ++ drop t.in_time e.reads })

-- The answer, the engine, and what is offered to the channel.
abbrev pub Streams : Type 0
Streams = (Answer AnalysisResult × StockfishEngine) × List AnalysisProgress

module _ (request : AnalysisRequest) (t : Clock) (elapsed now : ℕ) (cancel : Option ℕ) where
  unfoldable pub commanded : Result (Unit {0}) × StockfishEngine → Streams
  unfolding streamed left marked collect_analysis_streaming
  commanded (err x, e) = ((answered (err x), e), [])
  commanded (ok _, e) =
      let reads = take t.in_time e.reads in
      let (outcome, offered) =
        collect_analysis_streaming request elapsed now (marked cancel reads) in
      let (stops, rest) = left request cancel reads nothing in
      (streamed t rest (stopped stops e) outcome, offered)

  unfoldable pub readied : Loop (Unit {0}) × StockfishEngine → Streams
  unfolding commanded send_all
  readied (waiting, e) = ((pending, e), [])
  readied (failed x, e) = ((answered (err x), e), [])
  readied (done _, e) = commanded (send_all (analysis_commands request) e)

  unfoldable pub run_streaming : StockfishEngine → Streams
  unfolding readied ensure_ready
  run_streaming e = readied (ensure_ready e)

abbrev mock_progress : AnalysisRequest → ℕ → AnalysisProgress
mock_progress request depth = record {
  id = request.id;
  current_depth = depth;
  target_depth = request.depth;
  current_move = some e2e4;
  nodes_per_second = 500000;
  hash_full = 100;
  evaluation = some (centipawns (pos 30));
  principal_variations =
      record { rank = 1; moves = e2e4 ∷ e7e5 ∷ []; evaluation = centipawns (pos 30); depth = depth }
      ∷ [];
}

unfoldable pub mock_rounds :
    AnalysisRequest → ℕ → Option ℕ → List ℕ → Result AnalysisResult × List AnalysisProgress
unfolding mock_analysis_result
mock_rounds request now cancel [] = (ok (mock_analysis_result request now), [])
mock_rounds request now cancel (depth ∷ depths) =
    let (r, ps) = mock_rounds request now (later cancel) depths in
    if is_due cancel then (err analysis_cancelled, []) else (r, mock_progress request depth ∷ ps)

unfoldable pub mock_streaming_analysis :
    AnalysisRequest → ℕ → Option ℕ → Result AnalysisResult × List AnalysisProgress
unfolding mock_rounds
mock_streaming_analysis request now cancel =
    mock_rounds request now cancel (5 ∷ 10 ∷ 15 ∷ request.depth ∷ [])

abbrev acquired : Result (Unit {0}) → Streams → StockfishEngine → Streams
acquired (err x) search e = ((answered (err x), e), [])
acquired (ok _) search e = search

unfoldable pub on_engine :
    AnalysisService
    → Result AnalysisResult × List AnalysisProgress
    → Result (Unit {0})
    → Streams
    → StockfishEngine
    → Streams
on_engine svc (r, ps) acquire search e =
    if svc.mock_mode
    then ((answered r, e), ps)
    else if svc.has_pool
    then acquired acquire search e
    else ((answered (err (engine (text "no pool"))), e), [])

-- The arguments of `analyze`, and when the token is cancelled.
unfoldable pub analyze_streaming :
    AnalysisService
    → AnalysisRequest
    → Result (Unit {0})
    → Clock
    → ℕ
    → ℕ
    → Option ℕ
    → StockfishEngine
    → Streams
unfolding on_engine run_streaming mock_streaming_analysis
analyze_streaming svc request acquire t elapsed now cancel e =
    let search = run_streaming request t elapsed now cancel e in
    if not (validate (record { fen = request.fen }))
    then ((answered (err (invalid_fen request.fen)), e), [])
    else on_engine svc (mock_streaming_analysis request now cancel) acquire search e
