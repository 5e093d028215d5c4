-- ===== src/Stockfish/Engine/Startup.antt =====
-- Starting an engine, and starting it again.
use ironfish.Base.{
  true, false, List, [], ◌∷◌, ◌++◌, Text, text, trim, starts_with, All, map, ◌≡◌, refl, ◌↔◌, arith,
}
use ironfish.Core.Error.{Error, Result, ok, err}
use ironfish.Stockfish.Analysis.{Loop, waiting, failed, done, wait_for}
use ironfish.Stockfish.Service.{
  uci, is_ready, StockfishEngine, send_command, write_outcome, after_ready, ready_sent,
  ensure_ready,
}
use ironfish.Stockfish.Engine.{Engine, made_ready, greeted, asked, initialize, new, restart}

wait_for-found :
    (expected : Text) (before : List Text) (line : Text) (rest : List (Result Text))
    → All (λ l. starts_with (trim l) expected ≡ false) before
    → starts_with (trim line) expected ≡ true
    → wait_for expected (map ok before ++ ok line ∷ rest) ≡ done rest
unfolding wait_for
wait_for-found expected [] line rest q e = rw e refl
wait_for-found expected (l ∷ before) line rest q e =
    rw (q.0) (wait_for-found expected before line rest q.1 e)

made_ready-ready :
    (x : Loop (Unit {0}) × StockfishEngine) (e : Engine)
    → e.ready ≡ false
    → ((made_ready x e).1.ready ≡ true) ↔ ((made_ready x e).0 ≡ done tt)
unfolding made_ready
made_ready-ready (waiting, p) e off =
    (λ h. absurd (ground (arith, h, off)), λ h. absurd (ground (arith, h)))
made_ready-ready (failed x, p) e off =
    (λ h. absurd (ground (arith, h, off)), λ h. absurd (ground (arith, h)))
made_ready-ready (done u, p) e off = (λ h. refl, λ h. refl)

greeted-ready :
    (x : Loop (Unit {0}) × StockfishEngine) (e : Engine)
    → e.ready ≡ false
    → ((greeted x e).1.ready ≡ true) ↔ ((greeted x e).0 ≡ done tt)
unfolding greeted
greeted-ready (waiting, p) e off =
    (λ h. absurd (ground (arith, h, off)), λ h. absurd (ground (arith, h)))
greeted-ready (failed x, p) e off =
    (λ h. absurd (ground (arith, h, off)), λ h. absurd (ground (arith, h)))
greeted-ready (done u, p) e off = made_ready-ready (ensure_ready p) e off

asked-ready :
    (x : Result (Unit {0}) × StockfishEngine) (e : Engine)
    → e.ready ≡ false
    → ((asked x e).1.ready ≡ true) ↔ ((asked x e).0 ≡ done tt)
unfolding asked
asked-ready (err x, p) e off =
    (λ h. absurd (ground (arith, h, off)), λ h. absurd (ground (arith, h)))
asked-ready (ok u, p) e off = greeted-ready _ e off

-- After a restart whose process was spawned, the engine counts as ready exactly if the restart
-- succeeded, whatever it counted as before; one whose process was not spawned changes nothing.
restart-ready :
    (p : StockfishEngine) (x : Error) (e : Engine)
    → let (r, e') = restart (ok p) e in
      ((e'.ready ≡ true) ↔ (r ≡ done tt)) × (restart (err x) e ≡ (failed x, e))
unfolding restart initialize
restart-ready p x e = (asked-ready _ _ refl, refl)

-- A process whose writes work and that writes a line starting with `uciok` and, later, one starting
-- with `readyok` becomes a ready engine: it was sent `uci` and `isready`, and what it wrote behind
-- that line is still to be read.
pub new-done :
    (p : StockfishEngine) (banner between : List Text) (uciok readyok : Text)
    (rest : List (Result Text))
    → p.writes ≡ []
    → p.reads ≡ map ok banner ++ ok uciok ∷ (map ok between ++ ok readyok ∷ rest)
    → All (λ l. starts_with (trim l) (text "uciok") ≡ false) banner
    → starts_with (trim uciok) (text "uciok") ≡ true
    → All (λ l. starts_with (trim l) (text "readyok") ≡ false) between
    → starts_with (trim readyok) (text "readyok") ≡ true
    → new (ok p)
      ≡ done (record {
        process = record {
          sent = (p.sent ++ uci ∷ []) ++ is_ready ∷ [];
          writes = [];
          reads = rest;
        };
        ready = true;
      })
unfolding new initialize asked greeted made_ready send_command write_outcome after_ready ready_sent
    ensure_ready
new-done p banner between uciok readyok rest w r q e q' e' =
    rw
      (
        w,
        r,
        wait_for-found (text "uciok") banner uciok _ q e,
        wait_for-found (text "readyok") between readyok rest q' e',
      )
      refl
