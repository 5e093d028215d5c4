-- ===== src/Stockfish/Service/Streamed/Agreement.antt =====
-- A streaming analysis that is not cancelled does what a plain one does.
use ironfish.Base.{
  ℕ, zero, suc, false, Option, none, some, List, [], ◌∷◌, Text, trim, All, starts_with, Bool-cases,
  ◌≡◌, refl, ap, ◌∙◌, inl, inr, arith, text,
}
use ironfish.Core.Error.{Result, ok, err}
use ironfish.Core.Analysis.{AnalysisRequest, AnalysisResult}
use ironfish.Stockfish.Analysis.{
  Loop, waiting, failed, done, Collected, nothing, collect_line, wait_for, collect_analysis,
}
use ironfish.Stockfish.Streaming.Equivalence.{
  ReadableRead, Clean, collect_line-Clean, report_line-works, uncancelled,
  collect_analysis_streaming-collect_analysis,
}
use ironfish.Stockfish.Service
use ironfish.Stockfish.Service.{
  Command, StockfishEngine, write_outcome, send_command, after_ready, ready_sent, ensure_ready,
  send_all, take, drop, behind, Answer, Clock, searched, run_search, AnalysisService,
  analysis_commands, analyze, is_ready,
}
use ironfish.Stockfish.Service.Streamed
use ironfish.Stockfish.Service.Streamed.{
  marked, left, streamed, commanded, readied, run_streaming, analyze_streaming,
  mock_streaming_analysis, mock_rounds, Streams,
}
use ironfish.Core.Chess.{validate}

marked-none : (reads : List (Result Text)) → marked none reads ≡ uncancelled reads
unfolding marked
marked-none [] = refl
marked-none (r ∷ reads) = ap (λ rs. (false, r) ∷ rs) (marked-none reads)

left-none :
    (request : AnalysisRequest) (reads : List (Result Text)) (c : Collected)
    → All ReadableRead reads
    → Clean c.pvs
    → left request none reads c ≡ (false, behind reads)
unfolding left behind
left-none request [] c r clean = refl
left-none request (err e ∷ reads) c r clean = refl
left-none request (ok line ∷ reads) c (r, rs) clean =
    let now = collect_line (trim line) c in
    let clean' = collect_line-Clean (trim line) c r clean in
    let (ps, e) = report_line-works request (trim line) now r clean' in
    let ih = left-none request reads now rs clean' in ground (arith, e, ih)

take-All :
    (n : ℕ) (reads : List (Result Text)) → All ReadableRead reads → All ReadableRead (take n reads)
take-All zero reads r = tt
take-All (suc n) [] r = tt
take-All (suc n) (x ∷ reads) (r, rs) = (r, take-All n reads rs)

send_command-reads : (c : Command) (e : StockfishEngine) → (send_command c e).1.reads ≡ e.reads
unfolding send_command write_outcome
send_command-reads c e = by_writes e.writes
  where
    by_writes : (w : List (Result (Unit {0}))) → (write_outcome c w e).1.reads ≡ e.reads
    by_writes [] = refl
    by_writes (r ∷ rs) = refl

send_all-reads : (cs : List Command) (e : StockfishEngine) → (send_all cs e).1.reads ≡ e.reads
unfolding send_all
send_all-reads [] e = refl
send_all-reads (c ∷ cs) e =
    by_outcome (send_command c e) (send_command-reads c e) (send_all-reads cs (send_command c e).1)
  where
    by_outcome :
        (p : Result (Unit {0}) × StockfishEngine)
        → p.1.reads ≡ e.reads
        → (send_all cs p.1).1.reads ≡ p.1.reads
        → (elim p.0 as (λ x. Result (Unit {0}) × StockfishEngine) [
          | ok _ ↦ send_all cs p.1
          | err x ↦ (err x, p.1)
        ]).1.reads
          ≡ e.reads
    by_outcome (ok _, e') same later = later ∙ same
    by_outcome (err x, e') same later = same

abbrev AllLeft : Loop (List (Result Text)) → Type 0
AllLeft waiting = Unit
AllLeft (failed x) = Unit
AllLeft (done rest) = All ReadableRead rest

wait_for-AllLeft :
    (prefix : Text) (reads : List (Result Text))
    → All ReadableRead reads
    → AllLeft (wait_for prefix reads)
unfolding wait_for
wait_for-AllLeft prefix [] r = tt
wait_for-AllLeft prefix (err x ∷ reads) r = tt
wait_for-AllLeft prefix (ok line ∷ reads) (r, rs) =
    elim (Bool-cases (starts_with (trim line) prefix)) [
      | inl y ↦ rw y rs
      | inr n ↦ rw n (wait_for-AllLeft prefix reads rs)
    ]

-- A search on an engine that is ready or not.
module _ (request : AnalysisRequest) (t : Clock) (elapsed now : ℕ) where
  streamed-searched :
      (e : StockfishEngine) (o : Loop (Option (Result AnalysisResult)))
      → streamed t (behind (take t.in_time e.reads)) e o ≡ searched t e o
  unfolding streamed searched
  streamed-searched e waiting = refl
  streamed-searched e (failed x) = refl
  streamed-searched e (done none) = refl
  streamed-searched e (done (some r)) = refl

  commanded-agrees :
      (p : Result (Unit {0}) × StockfishEngine)
      → All ReadableRead p.1.reads
      → (commanded request t elapsed now none p).0
        ≡ Service.commanded t (collect_analysis request elapsed now) p
  unfolding commanded Service.commanded
  commanded-agrees (err x, e) r = refl
  commanded-agrees (ok _, e) r =
      let reads = take t.in_time e.reads in
      let in_time = take-All t.in_time e.reads r in
      rw
        (
          marked-none reads,
          left-none request reads nothing in_time tt,
          collect_analysis_streaming-collect_analysis request elapsed now reads in_time,
        )
        (streamed-searched e _)

  readied-agrees :
      (p : Loop (Unit {0}) × StockfishEngine)
      → All ReadableRead p.1.reads
      → (readied request t elapsed now none p).0
        ≡ Service.readied t (analysis_commands request) (collect_analysis request elapsed now) p
  unfolding readied Service.readied
  readied-agrees (waiting, e) r = refl
  readied-agrees (failed x, e) r = refl
  readied-agrees (done _, e) r =
      commanded-agrees (send_all (analysis_commands request) e)
        (rw (send_all-reads (analysis_commands request) e) r)

  ready_sent-agrees :
      (p : Result (Unit {0}) × StockfishEngine)
      → All ReadableRead p.1.reads
      → (readied request t elapsed now none (ready_sent p)).0
        ≡ Service.readied t
            (analysis_commands request)
            (collect_analysis request elapsed now)
            (ready_sent p)
  unfolding ready_sent after_ready readied Service.readied
  ready_sent-agrees (err x, e) r = readied-agrees (failed x, e) r
  ready_sent-agrees (ok _, e) r =
      by_wait (wait_for (text "readyok") e.reads) (wait_for-AllLeft (text "readyok") e.reads r)
    where
      by_wait :
          (l : Loop (List (Result Text)))
          → AllLeft l
          → (readied request t elapsed now none (after_ready l e)).0
            ≡ Service.readied t
                (analysis_commands request)
                (collect_analysis request elapsed now)
                (after_ready l e)
      by_wait waiting r = refl
      by_wait (failed x) r = refl
      by_wait (done rest) r = readied-agrees (done tt, record e { reads = rest }) r

  run_streaming-agrees :
      (e : StockfishEngine)
      → All ReadableRead e.reads
      → (run_streaming request t elapsed now none e).0
        ≡ run_search t (analysis_commands request) (collect_analysis request elapsed now) e
  unfolding run_streaming run_search ensure_ready
  run_streaming-agrees e r =
      ready_sent-agrees (send_command is_ready e) (rw (send_command-reads is_ready e) r)

acquired-agrees :
    (acquire : Result (Unit {0})) (s : Streams) (a : Answer AnalysisResult × StockfishEngine)
    (e : StockfishEngine)
    → s.0 ≡ a
    → (Streamed.acquired acquire s e).0 ≡ Service.acquired acquire a e
acquired-agrees (err x) s a e same = refl
acquired-agrees (ok _) s a e same = same

-- A streaming analysis whose token is not cancelled gives the answer of a plain analysis, errors
-- and timeouts included, and leaves the engine in the same state, if the moves in the engine's
-- output can be sliced. So do the two on a service without engines.
pub analyze_streaming-analyze :
    (svc : AnalysisService) (request : AnalysisRequest) (acquire : Result (Unit {0})) (t : Clock)
    (elapsed now : ℕ) (e : StockfishEngine)
    → All ReadableRead e.reads
    → (analyze_streaming svc request acquire t elapsed now none e).0
      ≡ analyze svc request acquire t elapsed now e
unfolding analyze_streaming analyze Streamed.on_engine Service.on_engine mock_streaming_analysis
    mock_rounds
analyze_streaming-analyze svc request acquire t elapsed now e r =
    let same = run_streaming-agrees request t elapsed now e r in
    elim (Bool-cases (validate (record { fen = request.fen }))) [
      | inr invalid ↦ rw invalid refl
      | inl valid ↦ elim (Bool-cases svc.mock_mode) [
        | inl mock ↦ rw (valid, mock) refl
        | inr real ↦ elim (Bool-cases svc.has_pool) [
          | inr no_pool ↦ rw (valid, real, no_pool) refl
          | inl pool ↦ rw (valid, real, pool) (acquired-agrees acquire _ _ e same)
        ]
      ]
    ]
