-- ===== src/Stockfish/Service.antt =====
-- crates/ironfish-stockfish/src/analysis.rs: `analyze` and `best_move` on an engine of the pool. A
-- timeout is the number of reads that come before it.
mod Process
pub mod Timeouts
pub mod Streamed
unfoldable pub use Process.*
use ironfish.Base.{
  ℕ, zero, suc, ◌-◌, Bool, true, false, not, Option, none, some, is_some, List, [], ◌∷◌, ◌++◌, Text,
  text, text_eq, ℤ, pos, trim, ◌==◌, if◌then◌else◌,
}
use ironfish.Core.Error.{Error, Result, ok, err, engine, invalid_fen, analysis_timeout}
use ironfish.Core.Chess.{ChessPosition, validate, Move, from_uci}
use ironfish.Core.Analysis.{
  centipawns, AnalysisRequest, AnalysisResult, at_least_one, PrincipalVariation, BestMoveRequest,
  BestMoveResponse,
}
use ironfish.Stockfish.Uci.{BestMove, parse_best_move}
use ironfish.Stockfish.Analysis.{
  Loop, waiting, failed, done, wait_for, parsed_ponder, collect_analysis,
}

abbrev pub take {ℓ} : {A : Type ℓ} → ℕ → List A → List A
take zero xs = []
take (suc n) [] = []
take (suc n) (x ∷ xs) = x ∷ take n xs

abbrev pub drop {ℓ} : {A : Type ℓ} → ℕ → List A → List A
drop zero xs = xs
drop (suc n) [] = []
drop (suc n) (x ∷ xs) = drop n xs

-- What is left to read behind the first error or best move.
unfoldable pub behind : List (Result Text) → List (Result Text)
behind [] = []
behind (err e ∷ reads) = reads
behind (ok line ∷ reads) =
    let rest = behind reads in if is_some (parse_best_move (trim line)) then reads else rest

-- Reads up to that, as far as they come in time.
abbrev pub read_on : ℕ → StockfishEngine → StockfishEngine
read_on n e = record e { reads = behind (take n e.reads) ++ drop n e.reads }

unfoldable pub stop_and_drain : ℕ → StockfishEngine → StockfishEngine
unfolding send_command behind
stop_and_drain n e = let (_, e') = send_command stop e in read_on n e'

-- What a call comes to: it still waits in `ensure_ready`, it panics, or it answers.
pub data Answer (A : Type 0) : Type 0 where
  pending panicked : Answer A
  answered : Result A → Answer A

-- How many reads come before the two timeouts.
pub record Clock : Type 0 where
  pub in_time : ℕ
  pub drained : ℕ

unfoldable pub searched :
    {A : Type 0} → Clock → StockfishEngine → Loop (Option (Result A)) → Answer A × StockfishEngine
unfolding stop_and_drain
searched t e waiting = (
  answered (err analysis_timeout),
  stop_and_drain t.drained (record e { reads = drop t.in_time e.reads }),
)
searched t e (failed x) = (answered (err x), read_on t.in_time e)
searched t e (done none) = (panicked, read_on t.in_time e)
searched t e (done (some r)) = (answered r, read_on t.in_time e)

-- A search on a ready engine: its commands, and then its loop over the reads that come in time.
unfoldable pub commanded :
    {A : Type 0}
    → Clock
    → (List (Result Text) → Loop (Option (Result A)))
    → Result (Unit {0}) × StockfishEngine
    → Answer A × StockfishEngine
unfolding searched
commanded t search (err x, e) = (answered (err x), e)
commanded t search (ok _, e) = searched t e (search (take t.in_time e.reads))

unfoldable pub readied :
    {A : Type 0}
    → Clock
    → List Command
    → (List (Result Text) → Loop (Option (Result A)))
    → Loop (Unit {0}) × StockfishEngine
    → Answer A × StockfishEngine
unfolding commanded send_all
readied t cs search (waiting, e) = (pending, e)
readied t cs search (failed x, e) = (answered (err x), e)
readied t cs search (done _, e) = commanded t search (send_all cs e)

unfoldable pub run_search :
    {A : Type 0}
    → Clock
    → List Command
    → (List (Result Text) → Loop (Option (Result A)))
    → StockfishEngine
    → Answer A × StockfishEngine
unfolding readied ensure_ready
run_search t cs search e = readied t cs search (ensure_ready e)

pub record AnalysisService : Type 0 where
  pub has_pool : Bool
  pub default_movetime : ℕ
  pub mock_mode : Bool

-- `AnalysisService::new` on a pool; the default depth is never read.
abbrev pub new : AnalysisService
new = record { has_pool = true; default_movetime = 1000; mock_mode = false }

abbrev pub new_mock : AnalysisService
new_mock = record { has_pool = false; default_movetime = 1000; mock_mode = true }

abbrev pub with_default_movetime : ℕ → AnalysisService → AnalysisService
with_default_movetime ms svc = record svc { default_movetime = ms }

abbrev e2e4 : Move
e2e4 = record { from = text "e2"; to = text "e4"; promotion = none }

abbrev e7e5 : Move
e7e5 = record { from = text "e7"; to = text "e5"; promotion = none }

-- The fixed answers of a service without engines.
unfoldable pub mock_analysis_result : AnalysisRequest → ℕ → AnalysisResult
mock_analysis_result request now = record {
  id = request.id;
  fen = request.fen;
  best_move = e2e4;
  ponder = some e7e5;
  evaluation = centipawns (pos 30);
  principal_variations =
      record {
        rank = 1;
        moves = e2e4 ∷ e7e5 ∷ [];
        evaluation = centipawns (pos 30);
        depth = request.depth;
      }
      ∷ [];
  depth_reached = request.depth;
  nodes_searched = 10000;
  time_ms = 100;
  completed_at = now;
}

unfoldable pub mock_best_move_result : BestMoveResponse
mock_best_move_result = record { best_move = e2e4; ponder = some e7e5 }

abbrev acquired :
    {A : Type 0}
    → Result (Unit {0})
    → Answer A × StockfishEngine
    → StockfishEngine
    → Answer A × StockfishEngine
acquired (err x) search e = (answered (err x), e)
acquired (ok _) search e = search

-- With a valid position: the mock answer, the missing pool, or a search on the engine that
-- `acquire` brings.
unfoldable pub on_engine :
    {A : Type 0}
    → AnalysisService
    → A
    → Result (Unit {0})
    → Answer A × StockfishEngine
    → StockfishEngine
    → Answer A × StockfishEngine
on_engine svc mock acquire search e =
    if svc.mock_mode
    then (answered (ok mock), e)
    else if svc.has_pool
    then acquired acquire search e
    else (answered (err (engine (text "no pool"))), e)

abbrev pub analysis_commands : AnalysisRequest → List Command
analysis_commands request =
    set_multipv (at_least_one request.multipv) ∷ position request.fen ∷ go_depth request.depth ∷ []

-- `acquire` is what the pool answers, `elapsed` and `now` what the clocks say at the end.
unfoldable pub analyze :
    AnalysisService
    → AnalysisRequest
    → Result (Unit {0})
    → Clock
    → ℕ
    → ℕ
    → StockfishEngine
    → Answer AnalysisResult × StockfishEngine
unfolding on_engine run_search mock_analysis_result position
analyze svc request acquire t elapsed now e =
    let search =
      run_search t (analysis_commands request) (collect_analysis request elapsed now) e in
    if not (validate (record { fen = request.fen }))
    then (answered (err (invalid_fen request.fen)), e)
    else on_engine svc (mock_analysis_result request now) acquire search e

-- The loop of `best_move`.
unfoldable pub first_best : List (Result Text) → Loop BestMove
first_best [] = waiting
first_best (err e ∷ reads) = failed e
first_best (ok line ∷ reads) =
    let rest = first_best reads in
    elim (parse_best_move (trim line)) [ none ↦ rest | some bm ↦ done bm ]

move_response : Option (Option Move) → Option (Option Move) → Option (Result BestMoveResponse)
move_response none ponder = none
move_response (some none) ponder = some (err (engine (text "invalid bestmove")))
move_response (some (some mv)) none = none
move_response (some (some mv)) (some p) = some (ok (record { best_move = mv; ponder = p }))

best_found : Loop BestMove → Loop (Option (Result BestMoveResponse))
unfolding move_response
best_found waiting = waiting
best_found (failed x) = failed x
best_found (done bm) = done (move_response (from_uci bm.mv) (parsed_ponder bm.ponder))

abbrev movetime_of : AnalysisService → Option ℕ → ℕ
movetime_of svc none = svc.default_movetime
movetime_of svc (some ms) = ms

unfoldable pub best_move :
    AnalysisService
    → BestMoveRequest
    → Result (Unit {0})
    → Clock
    → StockfishEngine
    → Answer BestMoveResponse × StockfishEngine
unfolding on_engine run_search first_best best_found mock_best_move_result position
best_move svc request acquire t e =
    let commands = position request.fen ∷ go_movetime (movetime_of svc request.movetime) ∷ [] in
    let search = run_search t commands (λ reads. best_found (first_best reads)) e in
    if not (validate (record { fen = request.fen }))
    then (answered (err (invalid_fen request.fen)), e)
    else on_engine svc mock_best_move_result acquire search e
