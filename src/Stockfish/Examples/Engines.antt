-- ===== src/Stockfish/Examples/Engines.antt =====
-- Engines that start, what a position writes to one, and a line that one writes.
use ironfish.Base.{true, [], ◌∷◌, text, ◌≡◌, refl, trim, strip_prefix, negsuc}
use ironfish.Core.Error.{ok}
use ironfish.Stockfish.Analysis.{done}
use ironfish.Stockfish.Service.{StockfishEngine, position, uci, is_ready}
use ironfish.Stockfish.Engine.{written, new}
use ironfish.Stockfish.Engine.Injection.{smuggle, lines, position-injects}
use ironfish.Stockfish.Engine.Startup.{new-done}
use ironfish.Stockfish.Engine.Lines.{Told}

position-injects_example :
    lines (written (position (smuggle (text "quit"))))
    ≡ text "position fen 8/8/8/8/8/8/8/8 w - -" ∷ text "quit" ∷ [] ∷ []
position-injects_example = (position-injects (text "quit") refl).1

abbrev process : StockfishEngine
process = record {
  sent = [];
  writes = [];
  reads =
      ok (text "Stockfish 16")
      ∷ ok (text "id name Stockfish 16")
      ∷ ok (text "uciok")
      ∷ ok (text "readyok")
      ∷ [];
}

new-done_example :
    new (ok process)
    ≡ done (record {
      process = record { sent = uci ∷ is_ready ∷ []; writes = []; reads = [] };
      ready = true;
    })
unfolding trim strip_prefix
new-done_example =
    new-done process (text "Stockfish 16" ∷ text "id name Stockfish 16" ∷ []) [] (text "uciok")
      (text "readyok") [] refl refl (refl, (refl, tt)) refl tt refl

-- A depth of 300 does not fit a `u8`.
abbrev told : Told
told = record {
  depth = 300;
  seldepth = 12;
  multipv = 1;
  score_cp = negsuc 30;
  nodes = 2000;
  nps = 70000;
  hashfull = 9;
  time = 8;
}
