-- ===== src/Stockfish/Streaming.antt =====
-- crates/ironfish-stockfish/src/analysis.rs: the loop of `collect_analysis_streaming`, which also
-- reports its progress and stops when it is cancelled.
pub mod Equivalence
use ironfish.Base.{
  ℕ, Bool, true, false, ◌||◌, Option, none, some, is_some, List, [], ◌∷◌, ◌++◌, Text, map, trim,
  if◌then◌else◌,
}
use ironfish.Core.Error.{Result, ok, err, analysis_cancelled}
use ironfish.Core.Chess.{Move}
use ironfish.Core.Analysis.{
  Evaluation, centipawns, mate, AnalysisRequest, AnalysisResult, AnalysisProgress,
  PrincipalVariation,
}
use ironfish.Stockfish.Uci.{UciInfo, parse_info, BestMove, parse_best_move}
use ironfish.Stockfish.Analysis.{
  Loop, waiting, failed, done, or_else, has_pv, Collected, nothing, collect_line, variations,
  parsed_ponder, finished,
}

unfoldable pub reports : UciInfo → Bool
reports info = has_pv info || is_some info.score_cp || is_some info.score_mate

unfoldable pub progress_evaluation : UciInfo → Option Evaluation
progress_evaluation info = elim info.score_mate [
  | none ↦ elim info.score_cp [ none ↦ none | some cp ↦ some (centipawns cp) ]
  | some m ↦ some (mate m)
]

unfoldable pub progress :
    AnalysisRequest → UciInfo → List PrincipalVariation → Option Move → AnalysisProgress
unfolding progress_evaluation
progress request info vs current = record {
  id = request.id;
  current_depth = or_else 0 info.depth;
  target_depth = request.depth;
  current_move = current;
  nodes_per_second = or_else 0 info.nps;
  hash_full = or_else 0 info.hashfull;
  evaluation = progress_evaluation info;
  principal_variations = vs;
}

unfoldable pub offer :
    AnalysisRequest
    → UciInfo
    → Option (List PrincipalVariation)
    → Option (Option Move)
    → Option (List AnalysisProgress)
unfolding progress
offer request info none current = none
offer request info (some vs) none = none
offer request info (some vs) (some current) = some (progress request info vs current ∷ [])

-- What is offered to the channel for a line, given what has been collected with it: `none` is a
-- panic over the text of a move.
unfoldable pub report : AnalysisRequest → UciInfo → Collected → Option (List AnalysisProgress)
unfolding offer
report request info c =
    if reports info
    then offer request info (variations c.pvs) (parsed_ponder info.currmove)
    else some []

unfoldable pub report_line : AnalysisRequest → Text → Collected → Option (List AnalysisProgress)
unfolding report
report_line request line c = elim (parse_info line) [
  | none ↦ some []
  | some info ↦ report request info c
]

-- After `stop`, the engine's output is read up to its best move.
unfoldable pub drain : List (Result Text) → Loop (Unit {0})
drain [] = waiting
drain (err e ∷ reads) = failed e
drain (ok line ∷ reads) =
    let rest = drain reads in if is_some (parse_best_move (trim line)) then done tt else rest

abbrev pub cancelled : Loop (Unit {0}) → Loop (BestMove × Collected)
cancelled waiting = waiting
cancelled (failed e) = failed e
cancelled (done _) = failed analysis_cancelled

-- How the loop ends, `none` being a panic, and what it has offered to the channel.
pub record Streamed : Type 0 where
  pub outcome : Option (Loop (BestMove × Collected))
  pub sent : List AnalysisProgress

abbrev pub ended_by : Option (Loop (BestMove × Collected)) → Streamed
ended_by o = record { outcome = o; sent = [] }

abbrev pub then_sent : List AnalysisProgress → Streamed → Streamed
then_sent ps later = record later { sent = ps ++ later.sent }

-- Each read comes with the token's state just before it: is it cancelled?
unfoldable pub stream : AnalysisRequest → List (Bool × Result Text) → Collected → Streamed
unfolding drain report_line
stream request [] c = ended_by (some waiting)
stream request ((true, r) ∷ reads) c =
    ended_by (some (cancelled (drain (r ∷ map (λ x. x.1) reads))))
stream request ((false, err e) ∷ reads) c = ended_by (some (failed e))
stream request ((false, ok line) ∷ reads) c =
    let now = collect_line (trim line) c in
    let rest = stream request reads now in
    elim (report_line request (trim line) now) [
      | none ↦ ended_by none
      | some ps ↦ then_sent ps (elim (parse_best_move (trim line)) [
        | none ↦ rest
        | some bm ↦ ended_by (some (done (bm, now)))
      ])
    ]

unfoldable pub streamed_result :
    AnalysisRequest
    → ℕ
    → ℕ
    → Option (Loop (BestMove × Collected))
    → Loop (Option (Result AnalysisResult))
unfolding finished
streamed_result request elapsed now none = done none
streamed_result request elapsed now (some l) = finished request elapsed now l

unfoldable pub collect_analysis_streaming :
    AnalysisRequest
    → ℕ
    → ℕ
    → List (Bool × Result Text)
    → Loop (Option (Result AnalysisResult)) × List AnalysisProgress
unfolding stream streamed_result
collect_analysis_streaming request elapsed now reads =
    let s = stream request reads nothing in (streamed_result request elapsed now s.outcome, s.sent)
