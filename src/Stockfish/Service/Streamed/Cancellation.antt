-- ===== src/Stockfish/Service/Streamed/Cancellation.antt =====
-- What a cancelled analysis answers, and in which state it leaves its engine.
use ironfish.Base.{
  ℕ, zero, suc, ◌<◌, ◌+◌, true, false, Option, none, some, List, [], ◌∷◌, ◌++◌, Text, text, trim,
  starts_with, length, All, map, ◌≡◌, refl, ap, arith,
}
use ironfish.Core.Error.{Result, ok, err, analysis_cancelled}
use ironfish.Core.Chess.{validate}
use ironfish.Core.Analysis.{at_least_one, AnalysisRequest}
use ironfish.Stockfish.Uci.{BestMove, parse_best_move}
use ironfish.Stockfish.Analysis.{failed, done, Collected, nothing, collect_line, wait_for, finished}
use ironfish.Stockfish.Analysis.Output.{oks}
use ironfish.Stockfish.Streaming.{drain, stream, streamed_result, collect_analysis_streaming}
use ironfish.Stockfish.Streaming.Equivalence.{
  ReadableRead, Clean, collect_line-Clean, report_line-works,
}
use ironfish.Stockfish.Service.{
  Command, set_multipv, go_depth, position, is_ready, stop, write_outcome, send_command,
  ensure_ready, ready_sent, after_ready, send_all, take, drop, behind, answered, Clock,
  AnalysisService,
}
use ironfish.Stockfish.Service.Timeouts.{take-drop-behind}
use ironfish.Stockfish.Service.Streamed.{
  marked, left, streamed, commanded, readied, run_streaming, on_engine, analyze_streaming,
}

read_of-marked :
    (cancel : Option ℕ) (reads : List (Result Text)) → map (λ x. x.1) (marked cancel reads) ≡ reads
unfolding marked
read_of-marked cancel [] = refl
read_of-marked cancel (r ∷ reads) = ap (λ rs. r ∷ rs) (read_of-marked _ reads)

drain-take :
    (n : ℕ) (ls : List Text) (best : Text) (bm : BestMove) (rest : List (Result Text))
    → All (λ l. parse_best_move (trim l) ≡ none) ls
    → parse_best_move (trim best) ≡ some bm
    → length ls < n
    → drain (take n (oks ls ++ ok best ∷ rest)) ≡ done tt
unfolding drain
drain-take zero ls best bm rest earlier found late = ground (arith, late)
drain-take (suc n) [] best bm rest earlier found late = ground (arith, found)
drain-take (suc n) (l ∷ ls) best bm rest (first, earlier) found late =
    ground (arith, first, drain-take n ls best bm rest earlier found (ground (arith, late)))

due_now :
    (request : AnalysisRequest) (n : ℕ) (ls : List Text) (best : Text) (bm : BestMove)
    (rest : List (Result Text)) (c : Collected)
    → All (λ l. parse_best_move (trim l) ≡ none) ls
    → parse_best_move (trim best) ≡ some bm
    → length ls < n
    → let reads = take n (oks ls ++ ok best ∷ rest) in
      ((stream request (marked (some 0) reads) c).outcome ≡ some (failed analysis_cancelled))
      × (left request (some 0) reads c ≡ (true, behind reads))
unfolding stream left marked drain
due_now request zero ls best bm rest c earlier found late = ground (arith, late)
due_now request (suc n) [] best bm rest c earlier found late = (rw found refl, refl)
due_now request (suc n) (l ∷ ls) best bm rest c (first, earlier) found late = (
  rw
      (
        first,
        read_of-marked (some 0) (take n (oks ls ++ ok best ∷ rest)),
        drain-take n ls best bm rest earlier found (ground (arith, late)),
      )
      refl,
  refl,
)

-- The token is cancelled when the loop has read `early`.
due_later :
    (request : AnalysisRequest) (n : ℕ) (early ls : List Text) (best : Text) (bm : BestMove)
    (rest : List (Result Text)) (c : Collected)
    → All ReadableRead (oks early)
    → Clean c.pvs
    → All (λ l. parse_best_move (trim l) ≡ none) early
    → All (λ l. parse_best_move (trim l) ≡ none) ls
    → parse_best_move (trim best) ≡ some bm
    → length early + length ls < n
    → let reads = take n (oks early ++ (oks ls ++ ok best ∷ rest)) in
      let more = drop n (oks early ++ (oks ls ++ ok best ∷ rest)) in
      let (stops, unread) = left request (some (length early)) reads c in
      ((stream request (marked (some (length early)) reads) c).outcome
        ≡ some (failed analysis_cancelled))
      × (stops ≡ true)
      × (unread ++ more ≡ rest)
unfolding stream left marked
due_later request n [] ls best bm rest c readable clean none_yet later found late =
    let in_time : length ls < n = ground (arith, late) in
    let (p, q) = due_now request n ls best bm rest c later found in_time in
    (p, rw q refl, rw q (take-drop-behind n ls best bm rest later found in_time))
due_later request zero (l ∷ early) ls best bm rest c readable clean none_yet later found late =
    ground (arith, late)
due_later request (suc n) (l ∷ early) ls best bm rest c (r, rs) clean (first, none_yet) later found
      late =
    let now = collect_line (trim l) c in
    let clean' = collect_line-Clean (trim l) c r clean in
    let (ps, e) = report_line-works request (trim l) now r clean' in
    let (p, q, u) =
      due_later request n early ls best bm rest now rs clean' none_yet later found
        (ground (arith, late)) in
    (ground (arith, e, first, p), ground (arith, e, first, q), ground (arith, e, first, u))

run_streaming-cancelled :
    (request : AnalysisRequest) (t : Clock) (elapsed now : ℕ) (sent : List Command)
    (ready best : Text) (early late : List Text) (bm : BestMove) (rest : List (Result Text))
    → starts_with (trim ready) (text "readyok") ≡ true
    → All ReadableRead (oks early)
    → All (λ l. parse_best_move (trim l) ≡ none) early
    → All (λ l. parse_best_move (trim l) ≡ none) late
    → parse_best_move (trim best) ≡ some bm
    → length early + length late < t.in_time
    → (run_streaming request t elapsed now (some (length early)) (record {
      sent = sent;
      writes = [];
      reads = ok ready ∷ (oks early ++ (oks late ++ ok best ∷ rest));
    })).0
      ≡ (
        answered (err analysis_cancelled),
        record {
          sent =
              ((((sent ++ is_ready ∷ []) ++ set_multipv (at_least_one request.multipv) ∷ [])
                  ++ position request.fen ∷ [])
                ++ go_depth request.depth ∷ [])
              ++ stop ∷ [];
          writes = [];
          reads = rest;
        },
      )
unfolding run_streaming ensure_ready send_command write_outcome ready_sent after_ready readied
    send_all commanded streamed wait_for collect_analysis_streaming streamed_result finished
run_streaming-cancelled request t elapsed now sent ready best early late bm rest is_ready_line
      readable none_yet later found in_time =
    let (p, q, u) =
      due_later request t.in_time early late best bm rest nothing readable tt none_yet later found
        in_time in
    rw is_ready_line (rw p (rw q (rw u refl)))

-- An analysis whose token is cancelled while it reads answers that it was cancelled, having sent the
-- commands of its search and then `stop`, and leaves the engine with just what comes behind the best
-- move that the engine then names: so does one that is cancelled before its first read. The best
-- move must come in the time for the whole analysis, and the moves in what was read before must be
-- such that they can be sliced.
pub analyze_streaming-cancelled :
    (svc : AnalysisService) (request : AnalysisRequest) (t : Clock) (elapsed now : ℕ)
    (sent : List Command) (ready best : Text) (early late : List Text) (bm : BestMove)
    (rest : List (Result Text))
    → validate (record { fen = request.fen }) ≡ true
    → svc.mock_mode ≡ false
    → svc.has_pool ≡ true
    → starts_with (trim ready) (text "readyok") ≡ true
    → All ReadableRead (oks early)
    → All (λ l. parse_best_move (trim l) ≡ none) early
    → All (λ l. parse_best_move (trim l) ≡ none) late
    → parse_best_move (trim best) ≡ some bm
    → length early + length late < t.in_time
    → (analyze_streaming svc request (ok tt) t elapsed now (some (length early)) (record {
      sent = sent;
      writes = [];
      reads = ok ready ∷ (oks early ++ (oks late ++ ok best ∷ rest));
    })).0
      ≡ (
        answered (err analysis_cancelled),
        record {
          sent =
              ((((sent ++ is_ready ∷ []) ++ set_multipv (at_least_one request.multipv) ∷ [])
                  ++ position request.fen ∷ [])
                ++ go_depth request.depth ∷ [])
              ++ stop ∷ [];
          writes = [];
          reads = rest;
        },
      )
unfolding analyze_streaming on_engine
analyze_streaming-cancelled svc request t elapsed now sent ready best early late bm rest valid real
      pool is_ready_line readable none_yet later found in_time =
    let ran =
      run_streaming-cancelled request t elapsed now sent ready best early late bm rest is_ready_line
        readable none_yet later found in_time in
    rw valid (rw real (rw pool ran))
