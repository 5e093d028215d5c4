-- ===== src/Stockfish/Examples.antt =====
-- The pool, the protocol and an analysis at work.
mod Engines
mod Streams
use ironfish.Base.{
  true, false, split, ℕ, ◌+◌, false, none, some, List, [], ◌∷◌, ◌++◌, Text, text, nat_eq, In, get,
  All, pos, split_whitespace, parse_unsigned, parse_signed, strip_prefix, insert, ◌≡◌, refl, arith,
  trim,
}
use ironfish.Core.Error.{Result, ok, err, analysis_timeout}
use ironfish.Core.Chess.{
  validate, fields_ok, ranks_ok, count_rank, is_ascii_digit, is_piece, Move, from_uci,
}
use ironfish.Core.Analysis.{
  PrincipalVariation, AnalysisRequest, AnalysisResult, new_request, centipawns,
}
use ironfish.Stockfish.Uci.{UciInfo, no_info, parse_info, BestMove, parse_best_move}
use ironfish.Stockfish.Pool.{EnginePool, turn, acquire}
use ironfish.Stockfish.Pool.{new}
use ironfish.Stockfish.Pool.Sharing.{
  Reached, started, acquired, Reached-IsPool, IsPool, after, acquire_shares, acquire_running,
  searches,
}
use ironfish.Stockfish.Analysis.{
  moves_of, parsed_ponder, done, Collected, nothing, collect, evaluation_of, collect_analysis,
}
use ironfish.Stockfish.Service.{
  AnalysisService, analyze, answered, is_ready, set_multipv, position, go_depth, stop,
}
use ironfish.Stockfish.Service.Timeouts.{analyze-timeout, Drained}
use ironfish.Stockfish.Streaming.{collect_analysis_streaming}
use ironfish.Stockfish.Streaming.Equivalence.{
  ReadableRead, uncancelled, collect_analysis_streaming-collect_analysis,
}
use ironfish.Stockfish.Analysis.Output.{collect_analysis-evaluation, newest, last, infos, oks}

-- Three engines of which the first is out.
abbrev pool : EnginePool
pool = record { size = 3; permits = 2; next_engine = 1; active_count = 1; held = 0 ∷ [] }

pool-IsPool : IsPool pool
pool-IsPool = (refl, refl, ground arith)

abbrev two_started : List (Result (Unit {0}))
two_started = ok tt ∷ ok tt ∷ []

abbrev fresh : EnginePool
fresh = record { size = 2; permits = 2; next_engine = 0; active_count = 0; held = [] }

fresh-Reached : Reached fresh
unfolding new
fresh-Reached = started two_started fresh (ground arith) refl

Reached-IsPool_example : IsPool (after fresh (acquire (λ i. true) (ok tt) fresh))
Reached-IsPool_example =
    Reached-IsPool (after fresh (acquire (λ i. true) (ok tt) fresh))
      (acquired (λ i. true) (ok tt) fresh fresh-Reached)

acquire_shares_example :
    (q : EnginePool) × (r : EnginePool) × (acquire_running pool ≡ some (ok (turn pool), q))
    × (acquire_running (searches 2 q) ≡ some (ok (turn pool), r))
    × In (turn pool) (searches 2 q).held
acquire_shares_example = acquire_shares pool (ground arith) pool-IsPool (ground arith)

-- The lines that an engine writes for two ranks.
abbrev pub line : ℕ → Text
line digit =
    text "info depth 9 multipv " ++ (digit ∷ text " score cp 3" ++ (digit ∷ text " pv e2e4"))

abbrev parsed : ℕ → UciInfo
parsed n = record no_info {
  depth = some 9;
  multipv = some n;
  score_cp = some (pos (30 + n));
  pv = text "e2e4" ∷ [];
}

parse_info-line : parse_info (line b'2') ≡ some (parsed 2)
unfolding parse_info split_whitespace parse_unsigned parse_signed
parse_info-line = refl

abbrev pub last_line : Text
last_line = text "bestmove e2e4 ponder e7e5"

abbrev pub best : BestMove
best = record { mv = text "e2e4"; ponder = some (text "e7e5") }

abbrev output : List Text
output = line b'1' ∷ line b'2' ∷ []

pub output-info : All (λ l. parse_best_move (trim l) ≡ none) output
unfolding parse_best_move trim strip_prefix
output-info = (refl, (refl, tt))

pub last_line-best : parse_best_move (trim last_line) ≡ some best
unfolding parse_best_move trim strip_prefix split_whitespace
last_line-best = refl

abbrev request : AnalysisRequest
request = new_request 1 (text "8/8/8/8/8/8/8/8 w - - 0 1")

abbrev mv : Text → Text → Move
mv from to = record { from = from; to = to; promotion = none }

abbrev variation_of : ℕ → PrincipalVariation
variation_of n = record {
  rank = n;
  moves = mv (text "e2") (text "e4") ∷ [];
  evaluation = centipawns (pos (30 + n));
  depth = 9;
}

abbrev result : AnalysisResult
result = record {
  id = 1;
  fen = request.fen;
  best_move = mv (text "e2") (text "e4");
  ponder = some (mv (text "e7") (text "e5"));
  evaluation = centipawns (pos 32);
  principal_variations = variation_of 1 ∷ variation_of 2 ∷ [];
  depth_reached = 9;
  nodes_searched = 0;
  time_ms = 60;
  completed_at = 100;
}

output-infos : infos (output ++ last_line ∷ []) ≡ (parsed 1 ∷ []) ++ parsed 2 ∷ []
unfolding trim parse_info split_whitespace parse_unsigned parse_signed
output-infos = refl

output-result :
    collect_analysis request 60 100 (oks (output ++ last_line ∷ [])) ≡ done (some (ok result))
unfolding collect_analysis trim parse_info split_whitespace parse_unsigned parse_signed
    parse_best_move strip_prefix from_uci insert
output-result = refl

-- The first line has 31 centipawns, and the result says 32.
collect_analysis-evaluation_example : result.evaluation ≡ evaluation_of (parsed 2)
collect_analysis-evaluation_example =
    collect_analysis-evaluation request 60 100 output last_line best (parsed 1 ∷ []) (parsed 2)
      result output-info last_line-best output-infos output-result

output-Readable : All ReadableRead (oks (output ++ last_line ∷ []))
unfolding trim parse_info split_whitespace parse_unsigned parse_signed strip_prefix from_uci
    moves_of parsed_ponder
output-Readable = ((refl, refl), ((refl, refl), (tt, tt)))

abbrev pub service : AnalysisService
service = record { has_pool = true; default_movetime = 1000; mock_mode = false }

abbrev pub opening : AnalysisRequest
opening = new_request 1 (text "rnbqkbnr/pppppppp/8/8/8/8/PPPPPPPP/RNBQKBNR w KQkq - 0 1")

pub opening-valid : validate (record { fen = opening.fen }) ≡ true
unfolding validate fields_ok ranks_ok count_rank is_ascii_digit is_piece split_whitespace split
opening-valid = refl

analyze-timeout_example :
    (left : List (Result Text)) × Drained 5 (ok last_line ∷ []) left
    × (analyze service opening
          (ok tt)
          (record { in_time = 2; drained = 5 })
          60
          100
          (record {
            sent = [];
            writes = [];
            reads = ok (text "readyok") ∷ (oks output ++ ok last_line ∷ []);
          })
        ≡ (
          answered (err analysis_timeout),
          record {
            sent = is_ready ∷ set_multipv 1 ∷ position opening.fen ∷ go_depth 20 ∷ stop ∷ [];
            writes = [];
            reads = left;
          },
        ))
unfolding trim strip_prefix
analyze-timeout_example =
    analyze-timeout service opening (record { in_time = 2; drained = 5 }) 60 100 [] (text "readyok")
      output (ok last_line ∷ []) opening-valid refl refl refl refl output-info
