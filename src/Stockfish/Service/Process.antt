-- ===== src/Stockfish/Service/Process.antt =====
-- crates/ironfish-stockfish/src/engine.rs: an engine process as a search sees it. It is what it was
-- sent, how the next writes end, and what it will write.
use ironfish.Base.{ℕ, List, [], ◌∷◌, ◌++◌, Text, text, text_eq, ◌==◌, if◌then◌else◌}
use ironfish.Core.Error.{Result, ok, err}
use ironfish.Stockfish.Analysis.{Loop, waiting, failed, done, wait_for}

-- The commands that are written to an engine.
pub data Command : Type 0 where
  is_ready stop uci quit position_startpos : Command
  position_fen : Text → Command
  set_multipv go_depth go_movetime : ℕ → Command

pub record StockfishEngine : Type 0 where
  pub sent : List Command
  pub writes : List (Result (Unit {0}))
  pub reads : List (Result Text)

unfoldable pub write_outcome :
    Command → List (Result (Unit {0})) → StockfishEngine → Result (Unit {0}) × StockfishEngine
write_outcome c [] e = (ok tt, record e { sent = e.sent ++ c ∷ [] })
write_outcome c (r ∷ rs) e = (r, record e { sent = e.sent ++ c ∷ []; writes = rs })

-- With no outcome left in the list, writes succeed. A command whose write failed counts as sent.
unfoldable pub send_command : Command → StockfishEngine → Result (Unit {0}) × StockfishEngine
unfolding write_outcome
send_command c e = write_outcome c e.writes e

-- What is left behind the first error.
behind_error : List (Result Text) → List (Result Text)
behind_error [] = []
behind_error (err e ∷ reads) = reads
behind_error (ok line ∷ reads) = behind_error reads

unfoldable pub after_ready :
    Loop (List (Result Text)) → StockfishEngine → Loop (Unit {0}) × StockfishEngine
unfolding behind_error
after_ready waiting e = (waiting, record e { reads = [] })
after_ready (failed x) e = (failed x, record e { reads = behind_error e.reads })
after_ready (done rest) e = (done tt, record e { reads = rest })

unfoldable pub ready_sent : Result (Unit {0}) × StockfishEngine → Loop (Unit {0}) × StockfishEngine
unfolding after_ready
ready_sent (err x, e) = (failed x, e)
ready_sent (ok _, e) = after_ready (wait_for (text "readyok") e.reads) e

unfoldable pub ensure_ready : StockfishEngine → Loop (Unit {0}) × StockfishEngine
unfolding send_command ready_sent
ensure_ready e = ready_sent (send_command is_ready e)

unfoldable pub position : Text → Command
position fen = if fen == text "startpos" then position_startpos else position_fen fen

-- Commands one after the other, up to the first that fails.
unfoldable pub send_all : List Command → StockfishEngine → Result (Unit {0}) × StockfishEngine
unfolding send_command
send_all [] e = (ok tt, e)
send_all (c ∷ cs) e =
    let (r, e') = send_command c e in
    let rest = send_all cs e' in elim r [ ok _ ↦ rest | err x ↦ (err x, e') ]
