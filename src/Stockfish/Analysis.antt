-- ===== src/Stockfish/Analysis.antt =====
-- crates/ironfish-stockfish/src/analysis.rs: an analysis, from the request to the result. What the
-- engine writes until the time is up is a list of reads; once they are used up, a loop still
-- waits. A call that slices a move's text may panic: `none` where the result is an `Option`.
pub mod Output
use ironfish.Base.{
  ℕ, zero, suc, ◌+◌, ◌-◌, Bool, true, false, not, ◌||◌, Option, none, some, is_some, List, [], ◌∷◌,
  ◌++◌, Text, text, nat_eq, ℤ, pos, Map, insert, leb, is_empty, if◌then◌else◌, length, starts_with,
  trim,
}
use ironfish.Core.Error.{
  Error, Result, ok, err, engine, invalid_fen, analysis_timeout, analysis_cancelled,
}
use ironfish.Core.Chess.{ChessPosition, validate, Move, from_uci}
use ironfish.Core.Analysis.{
  Evaluation, centipawns, mate, AnalysisRequest, PrincipalVariation, AnalysisResult,
  AnalysisProgress, BestMoveRequest, BestMoveResponse,
}
use ironfish.Stockfish.Uci.{UciInfo, no_info, parse_info, BestMove, parse_best_move}

-- How a loop over the reads ends: it still waits, an error, or a value.
pub data Loop {ℓ} (A : Type ℓ) : Type ℓ where
  waiting : Loop A
  failed : Error → Loop A
  done : A → Loop A

-- `wait_for`, with what is left to read behind the line. At the end of the engine's output
-- `read_line` gives the empty line, again and again.
unfoldable pub wait_for : Text → List (Result Text) → Loop (List (Result Text))
wait_for expected [] = waiting
wait_for expected (err e ∷ reads) = failed e
wait_for expected (ok line ∷ reads) =
    let rest = wait_for expected reads in
    if starts_with (trim line) expected then done reads else rest

abbrev pub or_else {ℓ} : {A : Type ℓ} → A → Option A → A
or_else a none = a
or_else a (some b) = b

abbrev pub has_pv : UciInfo → Bool
has_pv info = if leb (length info.pv) 0 then false else true

pub record Collected : Type 0 where
  pub pvs : Map ℕ (UciInfo × List Text)
  pub final_info : Option UciInfo

abbrev pub nothing : Collected
nothing = record { pvs = []; final_info = none }

-- What a line with information changes.
unfoldable pub collect_info : UciInfo → Collected → Collected
collect_info info c = record {
  pvs = if has_pv info then insert (or_else 1 info.multipv) (info, info.pv) c.pvs else c.pvs;
  final_info = some info;
}

unfoldable pub collect_line : Text → Collected → Collected
unfolding collect_info
collect_line line c = elim (parse_info line) [ none ↦ c | some info ↦ collect_info info c ]

-- The loop of `collect_analysis`.
unfoldable pub collect : List (Result Text) → Collected → Loop (BestMove × Collected)
unfolding collect_line
collect [] c = waiting
collect (err e ∷ reads) c = failed e
collect (ok line ∷ reads) c =
    let now = collect_line (trim line) c in
    let rest = collect reads now in
    elim (parse_best_move (trim line)) [ none ↦ rest | some bm ↦ done (bm, now) ]

unfoldable pub evaluation_of : UciInfo → Evaluation
evaluation_of info = elim info.score_mate [
  | none ↦ centipawns (or_else (pos 0) info.score_cp)
  | some m ↦ mate m
]

-- `filter_map` of `Move::from_uci`, which panics as soon as one of them does.
unfoldable pub moves_of : List Text → Option (List Move)
moves_of [] = some []
moves_of (m ∷ ms) =
    let rest = moves_of ms in
    elim (from_uci m) [
      | none ↦ none
      | some none ↦ rest
      | some (some mv) ↦ elim rest [ none ↦ none | some mvs ↦ some (mv ∷ mvs) ]
    ]

unfoldable pub variation : ℕ → UciInfo → List Text → Option PrincipalVariation
unfolding evaluation_of moves_of
variation rank info moves = elim (moves_of moves) [
  | none ↦ none
  | some ms ↦ some (record {
    rank = rank;
    moves = ms;
    evaluation = evaluation_of info;
    depth = or_else 0 info.depth;
  })
]

-- `none` once one of them panics.
unfoldable pub variations : Map ℕ (UciInfo × List Text) → Option (List PrincipalVariation)
unfolding variation
variations [] = some []
variations ((rank, (info, moves)) ∷ pvs) =
    let rest = variations pvs in
    elim (variation rank info moves) [
      | none ↦ none
      | some v ↦ elim rest [ none ↦ none | some vs ↦ some (v ∷ vs) ]
    ]

unfoldable pub place : PrincipalVariation → List PrincipalVariation → List PrincipalVariation
place v [] = v ∷ []
place v (w ∷ ws) = let rest = place v ws in if leb v.rank w.rank then v ∷ w ∷ ws else w ∷ rest

-- `sort_by_key` of the rank.
unfoldable pub sort_by_rank : List PrincipalVariation → List PrincipalVariation
unfolding place
sort_by_rank [] = []
sort_by_rank (v ∷ vs) = place v (sort_by_rank vs)

unfoldable pub parsed_ponder : Option Text → Option (Option Move)
parsed_ponder none = some none
parsed_ponder (some p) = from_uci p

unfoldable pub result_of :
    AnalysisRequest
    → UciInfo
    → Move
    → Option Move
    → List PrincipalVariation
    → ℕ
    → ℕ
    → AnalysisResult
unfolding evaluation_of sort_by_rank
result_of request info best ponder vs elapsed now = record {
  id = request.id;
  fen = request.fen;
  best_move = best;
  ponder = ponder;
  evaluation = evaluation_of info;
  principal_variations = sort_by_rank vs;
  depth_reached = or_else request.depth info.depth;
  nodes_searched = or_else 0 info.nodes;
  time_ms = elapsed;
  completed_at = now;
}

unfoldable pub with_best :
    AnalysisRequest
    → UciInfo
    → Map ℕ (UciInfo × List Text)
    → Option Text
    → ℕ
    → ℕ
    → Move
    → Option (Result AnalysisResult)
unfolding parsed_ponder variations result_of
with_best request info pvs ponder elapsed now best = elim (parsed_ponder ponder) [
  | none ↦ none
  | some p ↦ elim (variations pvs) [
    | none ↦ none
    | some vs ↦ some (ok (result_of request info best p vs elapsed now))
  ]
]

-- What both loops do behind their `break`, given the time spent and the time of day.
unfoldable pub finish :
    AnalysisRequest → BestMove → Collected → ℕ → ℕ → Option (Result AnalysisResult)
unfolding with_best
finish request best c elapsed now = elim (from_uci best.mv) [
  | none ↦ none
  | some none ↦ some (err (engine (text "invalid bestmove")))
  | some (some mv) ↦
      with_best request (or_else no_info c.final_info) c.pvs best.ponder elapsed now mv
]

-- The two loops that `analyze` and `analyze_streaming` run under their timeout.
unfoldable pub finished :
    AnalysisRequest → ℕ → ℕ → Loop (BestMove × Collected) → Loop (Option (Result AnalysisResult))
unfolding finish
finished request elapsed now waiting = waiting
finished request elapsed now (failed e) = failed e
finished request elapsed now (done (bm, c)) = done (finish request bm c elapsed now)

unfoldable pub collect_analysis :
    AnalysisRequest → ℕ → ℕ → List (Result Text) → Loop (Option (Result AnalysisResult))
unfolding finished collect
collect_analysis request elapsed now reads = finished request elapsed now (collect reads nothing)
