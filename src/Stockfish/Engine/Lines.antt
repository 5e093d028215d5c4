-- ===== src/Stockfish/Engine/Lines.antt =====
-- A line with information, with its numbers in decimal: how it is read back.
use ironfish.Base.{
  ℕ, zero, suc, ◌+◌, ◌*◌, ◌<◌, Option, none, some, List, ◌∷◌, Text, text, text_eq, leb,
  if◌then◌else◌, ℤ, pos, negsuc,
}
use ironfish.Stockfish.Engine.{decimal}

abbrev ten_to : ℕ → ℕ
ten_to zero = 1
ten_to (suc k) = 10 * ten_to k

-- A whole number in decimal.
abbrev pub signed_decimal : ℤ → Text
signed_decimal (pos n) = decimal n
signed_decimal (negsuc n) = b'-' ∷ decimal (n + 1)

-- The number if it is no larger than `max`.
abbrev pub within : ℕ → ℕ → Option ℕ
within max n = if leb n max then some n else none

-- The number if it fits an `i32`.
abbrev pub within32 : ℤ → Option ℤ
within32 (pos n) = if leb n 2147483647 then some (pos n) else none
within32 (negsuc n) = if leb (n + 1) 2147483648 then some (negsuc n) else none

abbrev magnitude_of : ℤ → ℕ
magnitude_of (pos n) = n
magnitude_of (negsuc n) = n + 1

-- The numbers that a line tells.
pub record Told : Type 0 where
  pub depth : ℕ
  pub seldepth : ℕ
  pub multipv : ℕ
  pub score_cp : ℤ
  pub nodes : ℕ
  pub nps : ℕ
  pub hashfull : ℕ
  pub time : ℕ

abbrev pub told_tokens : Told → List Text → List Text
told_tokens t moves =
    text "info"
    ∷ text "depth"
    ∷ decimal t.depth
    ∷ text "seldepth"
    ∷ decimal t.seldepth
    ∷ text "multipv"
    ∷ decimal t.multipv
    ∷ text "score"
    ∷ text "cp"
    ∷ signed_decimal t.score_cp
    ∷ text "nodes"
    ∷ decimal t.nodes
    ∷ text "nps"
    ∷ decimal t.nps
    ∷ text "hashfull"
    ∷ decimal t.hashfull
    ∷ text "time"
    ∷ decimal t.time
    ∷ text "pv"
    ∷ moves

-- The numbers have at most 20 digits.
abbrev pub IsWritten : Told → Type 0
IsWritten t =
    (t.depth < ten_to 20)
    × (t.seldepth < ten_to 20)
    × (t.multipv < ten_to 20)
    × (magnitude_of t.score_cp < ten_to 20)
    × (t.nodes < ten_to 20)
    × (t.nps < ten_to 20)
    × (t.hashfull < ten_to 20)
    × (t.time < ten_to 20)
