-- ===== src/Core/Examples.antt =====
-- Positions and moves at work.
use ironfish.Base.{
  ◌<◌, ◌*◌, some, text, length, All, split_whitespace, split, split_first, non_empty, is_whitespace,
  ◌≡◌, refl, arith,
}
use ironfish.Core.Chess.{
  starting, validate, u32_mod, Move, to_uci, from_uci, ranks_ok, count_rank, is_ascii_digit,
  is_piece, fields_ok,
}
use ironfish.Core.Chess.Moves.{from_uci-to_uci}
use ironfish.Core.Chess.Boards.{validate-IsBoard, IsBoard, boards}

validate-IsBoard_example : IsBoard (boards (split_whitespace starting.fen))
unfolding starting validate fields_ok ranks_ok count_rank is_ascii_digit is_piece split_whitespace
    split split_first non_empty is_whitespace
validate-IsBoard_example = validate-IsBoard starting short refl
  where
    short : All (λ r. 9 * length r < u32_mod) (boards (split_whitespace starting.fen))
    short = (
      ground arith,
      (
        ground arith,
        (
          ground arith,
          (ground arith, (ground arith, (ground arith, (ground arith, (ground arith, tt))))),
        ),
      ),
    )

abbrev promotion : Move
promotion = record { from = text "e7"; to = text "e8"; promotion = some b'q' }

from_uci-to_uci_example : from_uci (to_uci promotion) ≡ some (some promotion)
from_uci-to_uci_example =
    from_uci-to_uci promotion ((ground arith, (ground arith, tt)), refl)
      ((ground arith, (ground arith, tt)), refl)
