-- ===== src/Core/Chess.antt =====
-- crates/ironfish-core/src/types/chess.rs: positions in FEN, and moves in UCI notation.
pub mod Boards
pub mod Moves
use ironfish.Base.{
  ℕ, zero, suc, ◌+◌, ◌-◌, ◌%◌, Bool, true, false, ◌&&◌, ◌||◌, Option, none, some, List, [], ◌∷◌,
  ◌++◌, Text, text, text_eq, nat_eq, ltb, leb, nat_eqb, ◌==◌, if◌then◌else◌, length, any, get_elem?,
  split, split_whitespace,
}

-- 2 ^ 32
abbrev pub u32_mod : ℕ
u32_mod = 4294967296

pub record ChessPosition : Type 0 where
  pub fen : Text

unfoldable pub starting : ChessPosition
starting = record { fen = text "rnbqkbnr/pppppppp/8/8/8/8/PPPPPPPP/RNBQKBNR w KQkq - 0 1" }

unfoldable pub is_ascii_digit : ℕ → Bool
is_ascii_digit c = leb b'0' c && leb c b'9'

unfoldable pub is_piece : ℕ → Bool
is_piece c = any (λ p. nat_eqb p c) (text "pnbrqkPNBRQK")

-- The loop over a rank's characters with its `u32` counter; `none` is the early `return false`.
unfoldable pub count_rank : ℕ → Text → Option ℕ
count_rank count [] = some count
count_rank count (c ∷ s) =
    let digit = count_rank ((count + (c - b'0')) % u32_mod) s in
    let piece = count_rank ((count + 1) % u32_mod) s in
    if is_ascii_digit c then digit else if is_piece c then piece else none

abbrev is_eight : Option ℕ → Bool
is_eight none = false
is_eight (some count) = count == 8

unfoldable pub ranks_ok : List Text → Bool
ranks_ok [] = true
ranks_ok (r ∷ rs) = is_eight (count_rank 0 r) && ranks_ok rs

unfoldable pub fields_ok : List Text → Bool
fields_ok (board ∷ side ∷ _ ∷ _ ∷ _) =
    let ranks = split (nat_eqb b'/') board in
    length ranks == 8 && ranks_ok ranks && (side == text "w" || side == text "b")
fields_ok _ = false

unfoldable pub validate : ChessPosition → Bool
unfolding fields_ok
validate p = fields_ok (split_whitespace p.fen)

pub record Move : Type 0 where
  pub from : Text
  pub to : Text
  pub promotion : Option ℕ

abbrev pub new_move : Text → Text → Move
new_move from to = record { from = from; to = to; promotion = none }

abbrev pub with_promotion : ℕ → Move → Move
with_promotion piece m = record m { promotion = some piece }

unfoldable pub promotion_text : Option ℕ → Text
promotion_text none = []
promotion_text (some p) = p ∷ []

unfoldable pub to_uci : Move → Text
unfolding promotion_text
to_uci m = m.from ++ (m.to ++ promotion_text m.promotion)

-- The bytes of a scalar value in UTF-8, and of a text.
abbrev pub utf8_len : ℕ → ℕ
utf8_len c = if ltb c 0x80 then 1 else if ltb c 0x800 then 2 else if ltb c 0x10000 then 3 else 4

unfoldable pub byte_len : Text → ℕ
byte_len [] = 0
byte_len (c ∷ s) = utf8_len c + byte_len s

-- The text split behind its first bytes: `none` is the panic of a slice whose end is not between
-- two characters.
unfoldable pub split_at : ℕ → Text → Option (Text × Text)
split_at n [] = if nat_eqb n 0 then some ([], []) else none
split_at n (c ∷ s) =
    let rest = split_at (n - utf8_len c) s in
    if nat_eqb n 0
    then some ([], c ∷ s)
    else if ltb n (utf8_len c)
    then none
    else elim rest [ none ↦ none | some (a, b) ↦ some (c ∷ a, b) ]

-- With the two slices cut: the outer `none` is a panic.
unfoldable pub second_slice : Text → Text → Option (Text × Text) → Option (Option Move)
second_slice uci from none = none
second_slice uci from (some (to, _)) =
    some (some (record { from = from; to = to; promotion = get_elem? uci 4 }))

unfoldable pub first_slice : Text → Option (Text × Text) → Option (Option Move)
unfolding second_slice split_at
first_slice uci none = none
first_slice uci (some (from, rest)) = second_slice uci from (split_at 2 rest)

unfoldable pub from_uci : Text → Option (Option Move)
unfolding byte_len split_at first_slice
from_uci uci = if ltb (byte_len uci) 4 then some none else first_slice uci (split_at 2 uci)

pub data Color : Type 0 where
  white black : Color

unfoldable pub from_fen : ℕ → Option Color
from_fen c = if nat_eqb c b'w' then some white else if nat_eqb c b'b' then some black else none
