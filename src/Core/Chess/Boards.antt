-- ===== src/Core/Chess/Boards.antt =====
-- What a validated position says of the board.
use ironfish.Base.{
  ℕ, zero, suc, ◌+◌, ◌-◌, ◌*◌, ◌%◌, ◌≤◌, ◌<◌, true, Option, none, some, List, [], ◌∷◌, Text,
  text_eq, nat_eq, nat_eqb, if◌then◌else◌, length, All, split, split_whitespace, ◌≡◌, refl, arith,
  inl, inr, Option-cases,
}
use ironfish.Core.Chess.{
  ChessPosition, u32_mod, is_ascii_digit, is_piece, count_rank, ranks_ok, fields_ok, validate,
}

-- The squares of a rank as FEN describes them: a digit stands for so many empty squares.
abbrev pub empties : ℕ → List (Option ℕ) → List (Option ℕ)
empties zero s = s
empties (suc n) s = none ∷ empties n s

abbrev pub squares : Text → Option (List (Option ℕ))
squares [] = some []
squares (c ∷ s) =
    let rest = squares s in
    if is_ascii_digit c
    then elim rest [ none ↦ none | some q ↦ some (empties (c - b'0') q) ]
    else if is_piece c
    then elim rest [ none ↦ none | some q ↦ some (some c ∷ q) ]
    else none

abbrev pub counted : ℕ → Option (List (Option ℕ)) → Option ℕ
counted n none = none
counted n (some q) = some (n + length q)

length-empties : (n : ℕ) (q : List (Option ℕ)) → length (empties n q) ≡ n + length q
length-empties zero q = ground arith
length-empties (suc n) q = ground (arith, length-empties n q)

digit_small : (c : ℕ) → is_ascii_digit c ≡ true → c - b'0' ≤ 9
unfolding is_ascii_digit
digit_small c d = ground arith

count_step :
    (n c : ℕ) (s : Text) (r : Option (List (Option ℕ)))
    → ((m : ℕ) → m + 9 * length s < u32_mod → count_rank m s ≡ counted m r)
    → squares s ≡ r
    → n + 9 * length (c ∷ s) < u32_mod
    → count_rank n (c ∷ s) ≡ counted n (squares (c ∷ s))
unfolding count_rank
count_step n c s none ih e short =
    ground (arith, digit_small c, ih ((n + (c - b'0')) % u32_mod), ih ((n + 1) % u32_mod), e)
count_step n c s (some q) ih e short = ground (
  arith,
  digit_small c,
  length-empties (c - b'0') q,
  ih ((n + (c - b'0')) % u32_mod),
  ih ((n + 1) % u32_mod),
  e,
)

count_rank_lem :
    (n : ℕ) (s : Text) → n + 9 * length s < u32_mod → count_rank n s ≡ counted n (squares s)
unfolding count_rank
count_rank_lem n [] short = ground arith
count_rank_lem n (c ∷ s) short = count_step n c s (squares s) (λ m. count_rank_lem m s) refl short

-- A rank of eight squares.
abbrev pub IsRank : Text → Type 0
IsRank r = (q : List (Option ℕ)) × ((squares r ≡ some q) × (length q ≡ 8))

ranks_ok_lem :
    (rs : List Text) → All (λ r. 9 * length r < u32_mod) rs → ranks_ok rs ≡ true → All IsRank rs
unfolding ranks_ok
ranks_ok_lem [] short ok = tt
ranks_ok_lem (r ∷ rs) short ok = elim (Option-cases (squares r)) [
  | inl e ↦ ground (arith, e, count_rank_lem 0 r (ground (arith, short)))
  | inr (q, e) ↦ (
    (q, (e, ground (arith, e, count_rank_lem 0 r (ground (arith, short))))),
    ranks_ok_lem rs short.1 (ground (arith, ok)),
  )
]

-- Every rank of the board that a text describes is short enough for the counter of a rank.
abbrev pub boards : List Text → List Text
boards [] = []
boards (board ∷ fields) = split (nat_eqb b'/') board

abbrev pub IsBoard : List Text → Type 0
IsBoard rs = (length rs ≡ 8) × All IsRank rs

fields_ok_lem :
    (fs : List Text)
    → All (λ r. 9 * length r < u32_mod) (boards fs)
    → fields_ok fs ≡ true
    → IsBoard (boards fs)
unfolding fields_ok
fields_ok_lem [] short valid = ground (arith, valid)
fields_ok_lem (a ∷ []) short valid = ground (arith, valid)
fields_ok_lem (a ∷ b ∷ []) short valid = ground (arith, valid)
fields_ok_lem (a ∷ b ∷ c ∷ []) short valid = ground (arith, valid)
fields_ok_lem (a ∷ b ∷ c ∷ d ∷ fs) short valid =
    (ground (arith, valid), ranks_ok_lem (split (nat_eqb b'/') a) short (ground (arith, valid)))

-- A position that passes `validate`, and whose ranks are too short to overflow their counter, has
-- eight ranks, and each describes eight squares.
pub validate-IsBoard :
    (p : ChessPosition)
    → All (λ r. 9 * length r < u32_mod) (boards (split_whitespace p.fen))
    → validate p ≡ true
    → IsBoard (boards (split_whitespace p.fen))
unfolding validate
validate-IsBoard p short valid = fields_ok_lem (split_whitespace p.fen) short valid
