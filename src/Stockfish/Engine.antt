-- ===== src/Stockfish/Engine.antt =====
-- crates/ironfish-stockfish/src/engine.rs: the text of the commands, and starting an engine. A
-- process that has been spawned is what its writes and reads will come to.
pub mod Injection
pub mod Lines
pub mod Startup
use ironfish.Base.{
  ℕ, zero, suc, ◌+◌, ◌/◌, ◌%◌, Bool, true, false, Option, none, some, List, [], ◌∷◌, ◌++◌, Text,
  text, ltb, if◌then◌else◌,
}
use ironfish.Core.Error.{Error, Result, ok, err}
use ironfish.Stockfish.Analysis.{Loop, waiting, failed, done, wait_for}
use ironfish.Stockfish.Service
use ironfish.Stockfish.Service.{
  Command, is_ready, stop, uci, quit, position_startpos, position_fen, set_multipv, go_depth,
  go_movetime, StockfishEngine, send_command, after_ready, ensure_ready,
}

-- A number in decimal, of at most as many digits as the first argument says; a `u64` has 20.
unfoldable pub digits : ℕ → ℕ → Text
digits zero n = []
digits (suc k) n =
    let front = digits k (n / 10) in
    if ltb n 10 then (b'0' + n) ∷ [] else front ++ (b'0' + n % 10) ∷ []

unfoldable pub decimal : ℕ → Text
unfolding digits
decimal n = digits 20 n

abbrev pub newline : ℕ
newline = 10

unfoldable pub command_text : Command → Text
unfolding decimal
command_text is_ready = text "isready"
command_text stop = text "stop"
command_text uci = text "uci"
command_text quit = text "quit"
command_text position_startpos = text "position startpos"
command_text (position_fen fen) = text "position fen " ++ fen
command_text (set_multipv n) = text "setoption name MultiPV value " ++ decimal n
command_text (go_depth depth) = text "go depth " ++ decimal depth
command_text (go_movetime ms) = text "go movetime " ++ decimal ms

-- What `send_command` writes.
abbrev pub written : Command → Text
written c = command_text c ++ newline ∷ []

-- An engine with its flag.
pub record Engine : Type 0 where
  pub process : StockfishEngine
  pub ready : Bool

unfoldable pub made_ready : Loop (Unit {0}) × StockfishEngine → Engine → Loop (Unit {0}) × Engine
made_ready (waiting, p) e = (waiting, record e { process = p })
made_ready (failed x, p) e = (failed x, record e { process = p })
made_ready (done _, p) e = (done tt, record e { process = p; ready = true })

unfoldable pub greeted : Loop (Unit {0}) × StockfishEngine → Engine → Loop (Unit {0}) × Engine
unfolding made_ready
greeted (waiting, p) e = (waiting, record e { process = p })
greeted (failed x, p) e = (failed x, record e { process = p })
greeted (done _, p) e = made_ready (ensure_ready p) e

unfoldable pub asked : Result (Unit {0}) × StockfishEngine → Engine → Loop (Unit {0}) × Engine
unfolding greeted
asked (err x, p) e = (failed x, record e { process = p })
asked (ok _, p) e = greeted (after_ready (wait_for (text "uciok") p.reads) p) e

unfoldable pub initialize : Engine → Loop (Unit {0}) × Engine
unfolding asked
initialize e = asked (send_command uci e.process) e

abbrev only_done : Loop (Unit {0}) × Engine → Loop Engine
only_done (waiting, e) = waiting
only_done (failed x, e) = failed x
only_done (done _, e) = done e

-- `spawned` is the new process, or the error of spawning it.
unfoldable pub new : Result StockfishEngine → Loop Engine
unfolding initialize
new (err x) = failed x
new (ok p) = only_done (initialize (record { process = p; ready = false }))

unfoldable pub restart : Result StockfishEngine → Engine → Loop (Unit {0}) × Engine
unfolding initialize
restart (err x) e = (failed x, e)
restart (ok p) e = initialize (record e { process = p; ready = false })

-- `EnginePool::shutdown`, and what a pool that cannot be made does with the engines that it has:
-- each is sent `quit`, whether or not the write works.
unfoldable pub shutdown : List StockfishEngine → List StockfishEngine
shutdown [] = []
shutdown (p ∷ ps) = (send_command quit p).1 ∷ shutdown ps
