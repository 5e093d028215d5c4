-- ===== src/Stockfish/Pool/Sharing.antt =====
-- What the pool keeps, and whom it gives an engine.
use ironfish.Base.{
  ℕ, zero, suc, ◌+◌, ◌-◌, ◌≤◌, ◌<◌, Bool, true, Option, none, some, List, [], ◌∷◌, nat_eq, length,
  In, ◌≡◌, refl, inl, subst, sym, arith,
}
use native.Mathlib.Nat.{add-mod_right}
use ironfish.Core.Error.{Result, ok, err}
use ironfish.Stockfish.Pool.{
  new, created, start_engines, EnginePool, usize_mod, turn, handed_out, acquire, take_out, release,
  restart_then,
}

-- Every permit is free or out with a `PooledEngine`, and the engines that are out are counted.
abbrev pub IsPool : EnginePool → Type 0
IsPool p =
    (p.permits + length p.held ≡ p.size) × (p.active_count ≡ length p.held) × (p.size < usize_mod)

-- What a call of `acquire` leaves.
abbrev pub after : EnginePool → Option (Result ℕ × EnginePool) → EnginePool
after p none = p
after p (some (r, q)) = q

-- A pool keeps its count of permits over every `acquire`, also one whose restart fails.
acquire-IsPool :
    (is_running : ℕ → Bool) (restarted : Result (Unit {0})) (p : EnginePool)
    → IsPool p
    → IsPool (after p (acquire is_running restarted p))
unfolding acquire handed_out restart_then
acquire-IsPool is_running (ok _) p inv = ground (arith, inv)
acquire-IsPool is_running (err e) p inv = ground (arith, inv)

length-take_out : (idx : ℕ) (is : List ℕ) → In idx is → length (take_out idx is) + 1 ≡ length is
unfolding take_out
length-take_out idx [] m = ground (arith, m)
length-take_out idx (i ∷ is) m = ground (arith, m, length-take_out idx is)

-- It also keeps it when an engine that is out comes back.
release-IsPool : (idx : ℕ) (p : EnginePool) → In idx p.held → IsPool p → IsPool (release idx p)
unfolding release
release-IsPool idx p out inv = ground (arith, inv, length-take_out idx p.held out)

start_engines-length :
    (k : ℕ) (outcomes : List (Result (Unit {0}))) (n : ℕ)
    → start_engines k outcomes ≡ ok n
    → n ≡ k + length outcomes
unfolding start_engines
start_engines-length k [] n e = ground (arith, e)
start_engines-length k (ok _ ∷ rs) n e = ground (arith, start_engines-length (k + 1) rs n e)
start_engines-length k (err x ∷ rs) n e = ground (arith, e)

new-IsPool :
    (outcomes : List (Result (Unit {0}))) (p : EnginePool)
    → length outcomes < usize_mod
    → new outcomes ≡ ok p
    → IsPool p
unfolding new
new-IsPool outcomes p few e = by_start (start_engines 0 outcomes) refl e
  where
    by_start : (r : Result ℕ) → start_engines 0 outcomes ≡ r → created r ≡ ok p → IsPool p
    by_start (err x) f g = ground (arith, g)
    by_start (ok n) f g = ground (arith, g, few, start_engines-length 0 outcomes n f)

-- The pools that calls can lead to: a new one, and what `acquire` and the drop of an engine that is
-- out make of one, in any order and whichever processes are dead and fail to restart.
pub data Reached : EnginePool → Type 0 where
  started :
      (outcomes : List (Result (Unit {0}))) (p : EnginePool)
      → length outcomes < usize_mod
      → new outcomes ≡ ok p
      → Reached p
  acquired :
      (is_running : ℕ → Bool) (restarted : Result (Unit {0})) (p : EnginePool)
      → Reached p
      → Reached (after p (acquire is_running restarted p))
  released : (idx : ℕ) (p : EnginePool) → In idx p.held → Reached p → Reached (release idx p)

-- In every pool that calls can lead to, the free permits and the engines that are out are together
-- as many as the engines, and the count of active engines is that of the engines that are out.
pub Reached-IsPool : (p : EnginePool) → Reached p → IsPool p
Reached-IsPool p (started outcomes _ few e) = new-IsPool outcomes p few e
Reached-IsPool p (acquired is_running restarted q r) =
    acquire-IsPool is_running restarted q (Reached-IsPool q r)
Reached-IsPool p (released idx q out r) = release-IsPool idx q out (Reached-IsPool q r)

-- `acquire` while every engine runs.
abbrev pub acquire_running : EnginePool → Option (Result ℕ × EnginePool)
acquire_running p = acquire (λ i. true) (ok tt) p

abbrev pub searched : EnginePool → Option (Result ℕ × EnginePool) → EnginePool
searched p none = p
searched p (some (ok idx, q)) = release idx q
searched p (some (err e, q)) = q

-- So many searches, each of which ends before the next begins.
abbrev pub searches : ℕ → EnginePool → EnginePool
searches zero p = p
searches (suc k) p = searches k (searched p (acquire_running p))

searched_lem :
    (p : EnginePool)
    → 1 ≤ p.permits
    → p.next_engine + 1 < usize_mod
    → ((searched p (acquire_running p)).next_engine ≡ p.next_engine + 1)
      × ((searched p (acquire_running p)).permits ≡ p.permits)
      × ((searched p (acquire_running p)).size ≡ p.size)
      × ((searched p (acquire_running p)).held ≡ p.held)
unfolding acquire handed_out release take_out
searched_lem p free small = ground arith

searches_lem :
    (k : ℕ) (p : EnginePool)
    → 1 ≤ p.permits
    → p.next_engine + k < usize_mod
    → ((searches k p).next_engine ≡ p.next_engine + k)
      × ((searches k p).permits ≡ p.permits)
      × ((searches k p).size ≡ p.size)
      × ((searches k p).held ≡ p.held)
searches_lem zero p free small = ground arith
searches_lem (suc k) p free small =
    let one = searched_lem p free (ground (arith, small)) in
    let ih = searches_lem k (searched p (acquire_running p)) in ground (arith, one, ih, small, free)

acquire_running_lem :
    (p : EnginePool) → 1 ≤ p.permits → acquire_running p ≡ some (ok (turn p), handed_out (turn p) p)
unfolding acquire
acquire_running_lem p free = ground arith

turn-round :
    (p s : EnginePool) → s.next_engine ≡ p.next_engine + p.size → s.size ≡ p.size → turn s ≡ turn p
unfolding turn
turn-round p s e f = ground (arith, e, f, add-mod_right p.next_engine p.size)

-- A pool with two permits left gives out an engine, and while that search runs it gives the same
-- engine out again, as soon as one fewer searches than there are engines have come and gone.
pub acquire_shares :
    (p : EnginePool)
    → 2 ≤ p.permits
    → IsPool p
    → p.next_engine + p.size < usize_mod
    → (q : EnginePool) × (r : EnginePool) × (acquire_running p ≡ some (ok (turn p), q))
      × (acquire_running (searches (p.size - 1) q) ≡ some (ok (turn p), r))
      × In (turn p) (searches (p.size - 1) q).held
unfolding handed_out
acquire_shares p free inv small =
    let q = handed_out (turn p) p in
    let s = searches (p.size - 1) q in
    let run = searches_lem (p.size - 1) q (ground (arith, free)) (ground (arith, small, inv)) in
    let same = turn-round p s (ground (arith, run, small, inv)) (ground (arith, run)) in
    (
      q,
      handed_out (turn s) s,
      acquire_running_lem p (ground (arith, free)),
      subst (λ t. acquire_running s ≡ some (ok t, handed_out (turn s) s)) same
          (acquire_running_lem s (ground (arith, run, free))),
      subst (λ is. In (turn p) is) (sym (run.3)) (inl refl),
    )
