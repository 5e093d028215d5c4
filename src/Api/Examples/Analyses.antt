-- ===== src/Api/Examples/Analyses.antt =====
-- A session whose one analysis is cancelled when the engine has written a line.
use ironfish.Base.{
  none, some, [], ◌∷◌, ◌++◌, text, get, nat_eq, map, split_whitespace, parse_unsigned, parse_signed,
  strip_prefix, ◌≡◌, refl, arith, trim, List,
}
use ironfish.Core.Error.{ok}
use ironfish.Core.Chess.{from_uci}
use ironfish.Core.Analysis.{AnalysisProgress}
use ironfish.Stockfish.Uci.{parse_info}
use ironfish.Stockfish.Analysis.{moves_of, parsed_ponder}
use ironfish.Stockfish.Analysis.Output.{oks}
use ironfish.Stockfish.Service.{
  StockfishEngine, Clock, is_ready, set_multipv, position, go_depth, stop,
}
use ironfish.Stockfish.Examples.{
  line, output-info, last_line, best, service, opening, opening-valid, last_line-best,
}
use ironfish.Api.Session.{WsSession, was_cancelled}
use ironfish.Api.Session.Tasks.{run_analysis, progress_message}
use ironfish.Api.Session.Tasks.Cancelled.{run_analysis-cancelled}
use ironfish.Api.Examples.{session}

abbrev engine : StockfishEngine
engine = record {
  sent = [];
  writes = [];
  reads =
      ok (text "readyok") ∷ (oks (line b'1' ∷ []) ++ (oks (line b'2' ∷ []) ++ ok last_line ∷ []));
}

abbrev clock : Clock
clock = record { in_time = 9; drained = 5 }

abbrev asked : WsSession
asked = record session { active_analyses = (1, tt) ∷ [] }

run_analysis-cancelled_example :
    let (s', e') =
      run_analysis
        (λ ps. ps)
        service
        (text "a")
        opening
        (ok tt)
        clock
        60
        100
        (some 1)
        engine
        asked in
    ((ps : List AnalysisProgress) × (s'.sent ≡ map progress_message ps ++ was_cancelled 1 ∷ []))
    × (get 1 s'.active_analyses ≡ none)
    × (e' ≡ record {
      sent = is_ready ∷ set_multipv 1 ∷ position opening.fen ∷ go_depth 20 ∷ stop ∷ [];
      writes = [];
      reads = [];
    })
unfolding trim strip_prefix parse_info split_whitespace parse_unsigned parse_signed from_uci
    moves_of parsed_ponder
run_analysis-cancelled_example =
    run_analysis-cancelled (λ ps. ps) service (text "a") opening clock 60 100 [] (text "readyok")
      last_line (line b'1' ∷ []) (line b'2' ∷ []) best [] asked opening-valid refl refl refl
      ((refl, refl), tt) (output-info.0, tt) output-info.1 last_line-best (ground arith)
