-- ===== src/Stockfish/Analysis/Output.antt =====
-- What an analysis takes from the engine's output.
use ironfish.Base.{
  ℕ, zero, suc, Option, none, some, List, [], ◌∷◌, ◌++◌, Text, nat_eq, ◌==◌, get, get-insert,
  if◌then◌else◌, All, strip_prefix, trim, ◌≡◌, refl, ◌∙◌, ap, arith,
}
use ironfish.Core.Error.{Result, ok}
use ironfish.Core.Analysis.{AnalysisRequest, AnalysisResult}
use ironfish.Stockfish.Uci.{UciInfo, parse_info, BestMove, parse_best_move}
use ironfish.Stockfish.Analysis.{
  waiting, done, wait_for, or_else, has_pv, Collected, nothing, collect_info, collect_line, collect,
  evaluation_of, finish, with_best, result_of, finished, collect_analysis,
}

-- The reads behind the end of the output.
abbrev pub ended : ℕ → List (Result Text)
ended zero = []
ended (suc n) = ok [] ∷ ended n

-- Once the engine's output has ended, waiting for a line never ends.
wait_for-ended : (c : ℕ) (expected : Text) (n : ℕ) → wait_for (c ∷ expected) (ended n) ≡ waiting
unfolding wait_for trim strip_prefix
wait_for-ended c expected zero = refl
wait_for-ended c expected (suc n) = wait_for-ended c expected n

-- The information in lines, in their order.
abbrev pub infos : List Text → List UciInfo
infos [] = []
infos (l ∷ ls) =
    let rest = infos ls in elim (parse_info (trim l)) [ none ↦ rest | some i ↦ i ∷ rest ]

-- The newest of them with a line of play for a rank, else what was there before.
abbrev pub newest : ℕ → Option (UciInfo × List Text) → List UciInfo → Option (UciInfo × List Text)
newest rank old [] = old
newest rank old (i ∷ is) =
    newest rank
      (if has_pv i then (if or_else 1 i.multipv == rank then some (i, i.pv) else old) else old) is

abbrev pub last : Option UciInfo → List UciInfo → Option UciInfo
last old [] = old
last old (i ∷ is) = last (some i) is

abbrev pub oks : List Text → List (Result Text)
oks [] = []
oks (l ∷ ls) = ok l ∷ oks ls

-- What was collected from lines, given what had been before.
abbrev pub Collects : Collected → List UciInfo → Collected → Type 0
Collects c is d =
    ((rank : ℕ) → get rank d.pvs ≡ newest rank (get rank c.pvs) is)
    × (d.final_info ≡ last c.final_info is)

abbrev pub collected : List UciInfo → Collected → Collected
collected [] c = c
collected (i ∷ is) c = collected is (collect_info i c)

collected-Collects : (is : List UciInfo) (c : Collected) → Collects c is (collected is c)
unfolding collect_info
collected-Collects [] c = ((λ rank. refl), refl)
collected-Collects (i ∷ is) c =
    let ih = collected-Collects is (collect_info i c) in
    ((λ rank. ih.0 rank ∙ ap (λ o. newest rank o is) (inserted rank)), ih.1)
  where
    inserted :
        (rank : ℕ)
        → get rank (collect_info i c).pvs ≡ (
            if has_pv i
            then (if or_else 1 i.multipv == rank then some (i, i.pv) else get rank c.pvs)
            else get rank c.pvs)
    inserted rank = ground (arith, get-insert (or_else 1 i.multipv) rank (i, i.pv) c.pvs)

collected-step :
    (o : Option UciInfo) (is : List UciInfo) (c : Collected)
    → collected is (elim o [ none ↦ c | some i ↦ collect_info i c ])
      ≡ collected (elim o [ none ↦ is | some i ↦ i ∷ is ]) c
collected-step none is c = refl
collected-step (some i) is c = refl

collect-collected :
    (ls : List Text) (best : Text) (bm : BestMove) (c : Collected)
    → All (λ l. parse_best_move (trim l) ≡ none) ls
    → parse_best_move (trim best) ≡ some bm
    → collect (oks (ls ++ best ∷ [])) c ≡ done (bm, collected (infos (ls ++ best ∷ [])) c)
unfolding collect collect_line
collect-collected [] best bm c none_yet found =
    ground (arith, found, collected-step (parse_info (trim best)) [] c)
collect-collected (l ∷ ls) best bm c (first, none_yet) found = ground (
  arith,
  first,
  collected-step (parse_info (trim l)) (infos (ls ++ best ∷ [])) c,
  collect-collected ls best bm (collect_line (trim l) c) none_yet found,
)

-- Lines of which only the last names a best move end the loop, and what it has collected then is
-- the last information read, and for each rank the newest information that came with a line of play.
collect-newest :
    (ls : List Text) (best : Text) (bm : BestMove)
    → All (λ l. parse_best_move (trim l) ≡ none) ls
    → parse_best_move (trim best) ≡ some bm
    → (d : Collected) × (collect (oks (ls ++ best ∷ [])) nothing ≡ done (bm, d))
      × (((rank : ℕ) → get rank d.pvs ≡ newest rank none (infos (ls ++ best ∷ [])))
          × (d.final_info ≡ last none (infos (ls ++ best ∷ []))))
unfolding get
collect-newest ls best bm none_yet found = (
  collected (infos (ls ++ best ∷ [])) nothing,
  collect-collected ls best bm nothing none_yet found,
  collected-Collects (infos (ls ++ best ∷ [])) nothing,
)

last-append :
    (o : Option UciInfo) (is : List UciInfo) (i : UciInfo) → last o (is ++ i ∷ []) ≡ some i
last-append o [] i = refl
last-append o (j ∷ is) i = last-append (some j) is i

finish-evaluation :
    (request : AnalysisRequest) (bm : BestMove) (c : Collected) (i : UciInfo) (elapsed now : ℕ)
    (r : AnalysisResult)
    → c.final_info ≡ some i
    → finish request bm c elapsed now ≡ some (ok r)
    → r.evaluation ≡ evaluation_of i
unfolding finish with_best result_of
finish-evaluation request bm c i elapsed now r e f = ground (arith, e, f)

-- The evaluation of the result is that of the last information read, whatever rank that has: with
-- several ranks it is the one of the line that the engine wrote last, not the one of the best move.
pub collect_analysis-evaluation :
    (request : AnalysisRequest) (elapsed now : ℕ) (ls : List Text) (best : Text) (bm : BestMove)
    (is : List UciInfo) (i : UciInfo) (r : AnalysisResult)
    → All (λ l. parse_best_move (trim l) ≡ none) ls
    → parse_best_move (trim best) ≡ some bm
    → infos (ls ++ best ∷ []) ≡ is ++ i ∷ []
    → collect_analysis request elapsed now (oks (ls ++ best ∷ [])) ≡ done (some (ok r))
    → r.evaluation ≡ evaluation_of i
unfolding collect_analysis finished
collect_analysis-evaluation request elapsed now ls best bm is i r none_yet found e f =
    let (d, g, (_, h)) = collect-newest ls best bm none_yet found in
    finish-evaluation request bm d i elapsed now r (h ∙ (ap (last none) e ∙ last-append none is i))
      (ground (arith, g, f))
