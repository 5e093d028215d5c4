-- ===== src/Stockfish/Service/Timeouts.antt =====
-- In which state an analysis leaves its engine.
use ironfish.Base.{
  ℕ, zero, suc, ◌<◌, true, false, Option, none, some, List, [], ◌∷◌, ◌++◌, Text, text, trim,
  starts_with, length, All, ◌≡◌, refl, ap, subst, arith, ◌⊎◌, inl, inr, sym, Option-cases,
}
use ironfish.Core.Error.{Result, ok, err, analysis_timeout, Error}
use ironfish.Core.Chess.{validate}
use ironfish.Core.Analysis.{at_least_one, AnalysisRequest}
use ironfish.Stockfish.Uci.{BestMove, parse_best_move}
use ironfish.Stockfish.Analysis.{
  Loop, waiting, wait_for, Collected, nothing, collect_line, collect, finished, collect_analysis,
}
use ironfish.Stockfish.Analysis.Output.{oks}
use ironfish.Stockfish.Service.{
  Command, set_multipv, go_depth, position, is_ready, stop, write_outcome, send_command,
  ensure_ready, ready_sent, after_ready, send_all, take, drop, behind, stop_and_drain, answered,
  Clock, searched, commanded, readied, run_search, AnalysisService, on_engine, analyze,
}

take-drop {ℓ} : {A : Type ℓ} (n : ℕ) (xs : List A) → take n xs ++ drop n xs ≡ xs
take-drop zero xs = refl
take-drop (suc n) [] = refl
take-drop (suc n) (x ∷ xs) = ap (λ ys. x ∷ ys) (take-drop n xs)

pub take-drop-behind :
    (n : ℕ) (ls : List Text) (best : Text) (bm : BestMove) (rest : List (Result Text))
    → All (λ l. parse_best_move (trim l) ≡ none) ls
    → parse_best_move (trim best) ≡ some bm
    → length ls < n
    → behind (take n (oks ls ++ ok best ∷ rest)) ++ drop n (oks ls ++ ok best ∷ rest) ≡ rest
unfolding behind
take-drop-behind zero ls best bm rest earlier found late = ground (arith, late)
take-drop-behind (suc n) [] best bm rest earlier found late =
    ground (arith, found, take-drop n rest)
take-drop-behind (suc n) (l ∷ ls) best bm rest (first, earlier) found late =
    ground (arith, first, take-drop-behind n ls best bm rest earlier found (ground (arith, late)))

take-oks : (ls : List Text) (xs : List (Result Text)) → take (length ls) (oks ls ++ xs) ≡ oks ls
take-oks [] xs = refl
take-oks (l ∷ ls) xs = ap (λ ys. ok l ∷ ys) (take-oks ls xs)

drop-oks : (ls : List Text) (xs : List (Result Text)) → drop (length ls) (oks ls ++ xs) ≡ xs
drop-oks [] xs = refl
drop-oks (l ∷ ls) xs = drop-oks ls xs

collect-waiting :
    (ls : List Text) (c : Collected)
    → All (λ l. parse_best_move (trim l) ≡ none) ls
    → collect (oks ls) c ≡ waiting
unfolding collect
collect-waiting [] c none_yet = refl
collect-waiting (l ∷ ls) c (first, none_yet) =
    ground (arith, first, collect-waiting ls (collect_line (trim l) c) none_yet)

collect_analysis-waiting :
    (request : AnalysisRequest) (elapsed now : ℕ) (ls : List Text)
    → All (λ l. parse_best_move (trim l) ≡ none) ls
    → collect_analysis request elapsed now (oks ls) ≡ waiting
unfolding collect_analysis finished
collect_analysis-waiting request elapsed now ls none_yet =
    ap (finished request elapsed now) (collect-waiting ls nothing none_yet)

-- What the reads `xs` leave to read when at most `n` of them are drained: what is behind the best
-- move that a line names, what is behind an error, or, if no read in time brings either, the rest.
abbrev pub Drained : ℕ → List (Result Text) → List (Result Text) → Type 0
Drained n xs left =
    (late : List Text) × All (λ l. parse_best_move (trim l) ≡ none) late
    × (((best : Text) × (bm : BestMove) × (xs ≡ oks late ++ ok best ∷ left)
          × (parse_best_move (trim best) ≡ some bm)
          × (length late < n))
        ⊎ (((e : Error) × (xs ≡ oks late ++ err e ∷ left) × (length late < n))
            ⊎ ((xs ≡ oks late ++ left) × ((length late ≡ n) ⊎ (left ≡ [])))))

one_more :
    (n : ℕ) (l : Text) (xs left : List (Result Text))
    → parse_best_move (trim l) ≡ none
    → Drained n xs left
    → Drained (suc n) (ok l ∷ xs) left
one_more n l xs left first (late, none_yet, inl (best, bm, e, found, k)) =
    (l ∷ late, (first, none_yet), inl (best, bm, ap (λ ys. ok l ∷ ys) e, found, ground (arith, k)))
one_more n l xs left first (late, none_yet, inr (inl (x, e, k))) =
    (l ∷ late, (first, none_yet), inr (inl (x, ap (λ ys. ok l ∷ ys) e, ground (arith, k))))
one_more n l xs left first (late, none_yet, inr (inr (e, inl k))) =
    (l ∷ late, (first, none_yet), inr (inr (ap (λ ys. ok l ∷ ys) e, inl (ground (arith, k)))))
one_more n l xs left first (late, none_yet, inr (inr (e, inr k))) =
    (l ∷ late, (first, none_yet), inr (inr (ap (λ ys. ok l ∷ ys) e, inr k)))

behind-Drained : (n : ℕ) (xs : List (Result Text)) → Drained n xs (behind (take n xs) ++ drop n xs)
unfolding behind
behind-Drained zero xs = ([], tt, inr (inr (refl, inl refl)))
behind-Drained (suc n) [] = ([], tt, inr (inr (refl, inr refl)))
behind-Drained (suc n) (err e ∷ xs) =
    ([], tt, inr (inl (e, ap (λ ys. err e ∷ ys) (sym (take-drop n xs)), ground arith)))
behind-Drained (suc n) (ok l ∷ xs) = elim (Option-cases (parse_best_move (trim l))) [
  | inl first ↦ rw first (one_more n l xs _ first (behind-Drained n xs))
  | inr (bm, found) ↦
      rw found
        ([], tt, inl (l, bm, ap (λ ys. ok l ∷ ys) (sym (take-drop n xs)), found, ground arith))
]

run_search-timeout :
    {A : Type 0} (t : Clock) (a b c : Command)
    (search : List (Result Text) → Loop (Option (Result A))) (sent : List Command) (ready : Text)
    (early : List Text) (after : List (Result Text))
    → starts_with (trim ready) (text "readyok") ≡ true
    → length early ≡ t.in_time
    → search (oks early) ≡ waiting
    → run_search t
        (a ∷ b ∷ c ∷ [])
        search
        (record { sent = sent; writes = []; reads = ok ready ∷ (oks early ++ after) })
      ≡ (
        answered (err analysis_timeout),
        record {
          sent = ((((sent ++ is_ready ∷ []) ++ a ∷ []) ++ b ∷ []) ++ c ∷ []) ++ stop ∷ [];
          writes = [];
          reads = behind (take t.drained after) ++ drop t.drained after;
        },
      )
unfolding run_search ensure_ready send_command write_outcome ready_sent after_ready readied send_all
    commanded searched stop_and_drain wait_for
run_search-timeout t a b c search sent ready early after is_ready_line n w =
    let first : take t.in_time (oks early ++ after) ≡ oks early =
      subst (λ k. take k (oks early ++ after) ≡ oks early) n (take-oks early after) in
    let second : drop t.in_time (oks early ++ after) ≡ after =
      subst (λ k. drop k (oks early ++ after) ≡ after) n (drop-oks early after) in
    rw is_ready_line (rw first (rw w (rw second refl)))

-- An analysis on an engine whose writes work and that answers `isready` at once, but names no best
-- move in time, answers with a timeout, whatever the engine writes later. It has sent the commands
-- of its search and then `stop`, and leaves to read what is behind the best move that the engine
-- names in the time for draining: then no later search can take the old answer for its own. Only if
-- that time brings an error first, or neither, what is left may begin with the old search's output.
pub analyze-timeout :
    (svc : AnalysisService) (request : AnalysisRequest) (t : Clock) (elapsed now : ℕ)
    (sent : List Command) (ready : Text) (early : List Text) (after : List (Result Text))
    → validate (record { fen = request.fen }) ≡ true
    → svc.mock_mode ≡ false
    → svc.has_pool ≡ true
    → starts_with (trim ready) (text "readyok") ≡ true
    → length early ≡ t.in_time
    → All (λ l. parse_best_move (trim l) ≡ none) early
    → (left : List (Result Text)) × Drained t.drained after left
      × (analyze svc request
            (ok tt)
            t
            elapsed
            now
            (record { sent = sent; writes = []; reads = ok ready ∷ (oks early ++ after) })
          ≡ (
            answered (err analysis_timeout),
            record {
              sent =
                  ((((sent ++ is_ready ∷ []) ++ set_multipv (at_least_one request.multipv) ∷ [])
                      ++ position request.fen ∷ [])
                    ++ go_depth request.depth ∷ [])
                  ++ stop ∷ [];
              writes = [];
              reads = left;
            },
          ))
unfolding analyze on_engine
analyze-timeout svc request t elapsed now sent ready early after valid real pool is_ready_line n
      none_yet =
    let ran =
      run_search-timeout t _ _ _ (collect_analysis request elapsed now) sent ready early after
        is_ready_line n (collect_analysis-waiting request elapsed now early none_yet) in
    (_, behind-Drained t.drained after, rw valid (rw real (rw pool ran)))
