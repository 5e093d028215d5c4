-- ===== src/Stockfish/Examples/Streams.antt =====
-- A streaming analysis that is left alone.
use ironfish.Base.{none, [], ◌∷◌, ◌++◌, text, All, split_whitespace, ◌≡◌, trim}
use ironfish.Core.Error.{ok}
use ironfish.Stockfish.Uci.{parse_info}
use ironfish.Stockfish.Analysis.Output.{oks}
use ironfish.Stockfish.Streaming.Equivalence.{ReadableRead}
use ironfish.Stockfish.Service.{StockfishEngine, analyze}
use ironfish.Stockfish.Service.Streamed.{analyze_streaming}
use ironfish.Stockfish.Service.Streamed.Agreement.{analyze_streaming-analyze}
use ironfish.Stockfish.Examples.{output, last_line, service, opening, output-Readable}

abbrev process : StockfishEngine
process = record {
  sent = [];
  writes = [];
  reads = ok (text "readyok") ∷ oks (output ++ last_line ∷ []);
}

process-Readable : All ReadableRead process.reads
unfolding trim parse_info split_whitespace
process-Readable = (tt, output-Readable)

analyze_streaming-analyze_example :
    (analyze_streaming service opening
      (ok tt)
      (record { in_time = 9; drained = 5 })
      60
      100
      none
      process).0
    ≡ analyze service opening (ok tt) (record { in_time = 9; drained = 5 }) 60 100 process
analyze_streaming-analyze_example =
    analyze_streaming-analyze service opening (ok tt) (record { in_time = 9; drained = 5 }) 60 100
      process process-Readable
