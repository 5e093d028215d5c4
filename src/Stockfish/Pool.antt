-- ===== src/Stockfish/Pool.antt =====
-- crates/ironfish-stockfish/src/pool.rs: the pool of engines. The engines are named by their
-- places. Whether an engine's process runs, and how starting one ends, is given.
pub mod Sharing
use ironfish.Base.{
  ℕ, zero, suc, ◌+◌, ◌-◌, ◌%◌, Bool, true, false, Option, none, some, List, [], ◌∷◌, ◌++◌, nat_eq,
  ltb, nat_eqb, ◌==◌, if◌then◌else◌, length,
}
use ironfish.Core.Error.{Result, ok, err, pool_exhausted}

abbrev pub usize_mod : ℕ
usize_mod = 18446744073709551616

-- A pool, its free permits, and the engines of the `PooledEngine`s that are out.
pub record EnginePool : Type 0 where
  pub size : ℕ
  pub permits : ℕ
  pub next_engine : ℕ
  pub active_count : ℕ
  pub held : List ℕ

-- The engines are started one by one, and the first failure ends it.
unfoldable pub start_engines : ℕ → List (Result (Unit {0})) → Result ℕ
start_engines started [] = ok started
start_engines started (ok _ ∷ rs) = start_engines (started + 1) rs
start_engines started (err e ∷ rs) = err e

unfoldable pub created : Result ℕ → Result EnginePool
created (ok n) = ok (record { size = n; permits = n; next_engine = 0; active_count = 0; held = [] })
created (err e) = err e

-- One outcome for each of the `pool_size` engines.
unfoldable pub new : List (Result (Unit {0})) → Result EnginePool
unfolding start_engines created
new outcomes = created (start_engines 0 outcomes)

-- With a permit in hand: `fetch_add` wraps, and the count of engines is not 0, since a pool
-- without engines has no permits.
unfoldable pub turn : EnginePool → ℕ
turn p = p.next_engine % p.size

unfoldable pub handed_out : ℕ → EnginePool → EnginePool
handed_out idx p = record p {
  permits = p.permits - 1;
  next_engine = (p.next_engine + 1) % usize_mod;
  active_count = (p.active_count + 1) % usize_mod;
  held = idx ∷ p.held;
}

unfoldable pub restart_then : ℕ → Result (Unit {0}) → EnginePool → Result ℕ × EnginePool
unfolding handed_out
restart_then idx (ok _) p = (ok idx, handed_out idx p)
restart_then idx (err e) p = (err e, record p { next_engine = (p.next_engine + 1) % usize_mod })

-- `acquire`: `none` as long as it waits for a permit. If the engine is dead and its restart fails,
-- the permit goes back.
unfoldable pub acquire :
    (ℕ → Bool) → Result (Unit {0}) → EnginePool → Option (Result ℕ × EnginePool)
unfolding turn handed_out restart_then
acquire is_running restarted p =
    let idx = turn p in
    if nat_eqb p.permits 0
    then none
    else some (if is_running idx then (ok idx, handed_out idx p) else restart_then idx restarted p)

unfoldable pub take_out : ℕ → List ℕ → List ℕ
take_out idx [] = []
take_out idx (i ∷ is) = let rest = take_out idx is in if i == idx then is else i ∷ rest

-- `drop` of a `PooledEngine` that holds this engine; the permit is dropped with it.
unfoldable pub release : ℕ → EnginePool → EnginePool
unfolding take_out
release idx p = record p {
  permits = p.permits + 1;
  active_count = (p.active_count + usize_mod - 1) % usize_mod;
  held = take_out idx p.held;
}

abbrev pub available : EnginePool → ℕ
available p = p.permits

abbrev pub active : EnginePool → ℕ
active p = p.active_count
