-- ===== src/Core/Chess/Moves.antt =====
-- Moves to and from their notation.
use ironfish.Base.{
  ℕ, ◌≤◌, ◌<◌, Option, none, some, [], ◌∷◌, ◌++◌, Text, length, All, get_elem?, ◌≡◌, refl, ◌⊎◌, inl,
  inr, arith,
}
use ironfish.Core.Chess.{
  Move, to_uci, from_uci, byte_len, split_at, utf8_len, second_slice, first_slice, promotion_text,
}

abbrev pub IsAscii : Text → Type 0
IsAscii s = All (λ c. c < 128) s

-- A square as the engine writes it: two ASCII characters.
abbrev pub IsSquare : Text → Type 0
IsSquare s = IsAscii s × (length s ≡ 2)

read_back :
    (from to : Text) (p : Option ℕ)
    → IsSquare from
    → IsSquare to
    → from_uci (from ++ (to ++ promotion_text p))
      ≡ some (some (record { from = from; to = to; promotion = p }))
unfolding from_uci promotion_text split_at byte_len first_slice second_slice
read_back (a ∷ b ∷ []) (c ∷ d ∷ []) none f t = ground arith
read_back (a ∷ b ∷ []) (c ∷ d ∷ []) (some p) f t = ground arith
read_back from to p f t = ground arith

-- A move between two squares is read back as it was written, with its promotion if it has one.
pub from_uci-to_uci :
    (m : Move) → IsSquare m.from → IsSquare m.to → from_uci (to_uci m) ≡ some (some m)
unfolding to_uci
from_uci-to_uci m f t = read_back m.from m.to m.promotion f t

utf8_len-ascii : (c : ℕ) → c < 128 → utf8_len c ≡ 1
utf8_len-ascii c a = ground arith

byte_len-ascii : (s : Text) → IsAscii s → byte_len s ≡ length s
unfolding byte_len
byte_len-ascii [] a = refl
byte_len-ascii (c ∷ s) a = ground (arith, byte_len-ascii s a.1)

split_at-two :
    (c d : ℕ) (s : Text) → c < 128 → d < 128 → split_at 2 (c ∷ d ∷ s) ≡ some (c ∷ d ∷ [], s)
unfolding split_at
split_at-two c d [] a b = ground arith
split_at-two c d (e ∷ s) a b = ground arith

from_uci-four :
    (c d e f : ℕ) (s : Text)
    → IsAscii (c ∷ d ∷ e ∷ f ∷ s)
    → from_uci (c ∷ d ∷ e ∷ f ∷ s)
      ≡ some (some (record { from = c ∷ d ∷ []; to = e ∷ f ∷ []; promotion = get_elem? s 0 }))
unfolding from_uci first_slice second_slice
from_uci-four c d e f s (ca, (da, (ea, (fa, a)))) =
    let long = byte_len-ascii (c ∷ d ∷ e ∷ f ∷ s) (ca, (da, (ea, (fa, a)))) in
    let first = split_at-two c d (e ∷ f ∷ s) ca da in
    let second = split_at-two e f s ea fa in ground (arith, long, first, second)

-- On ASCII text the slices never panic: the text is too short, or it gives a move.
from_uci_ascii :
    (s : Text)
    → IsAscii s
    → ((length s < 4) × (from_uci s ≡ some none))
      ⊎ ((4 ≤ length s) × ((m : Move) × (from_uci s ≡ some (some m))))
unfolding from_uci byte_len
from_uci_ascii [] a = inl (ground arith)
from_uci_ascii (c ∷ []) a = inl (ground arith)
from_uci_ascii (c ∷ d ∷ []) a = inl (ground arith)
from_uci_ascii (c ∷ d ∷ e ∷ []) a = inl (ground arith)
from_uci_ascii (c ∷ d ∷ e ∷ f ∷ s) a = inr (
  ground arith,
  (
    record { from = c ∷ d ∷ []; to = e ∷ f ∷ []; promotion = get_elem? s 0 },
    from_uci-four c d e f s a,
  ),
)

-- Any other text may panic: one of four bytes or more whose first character takes three or four.
from_uci_panics : (c : ℕ) (s : Text) → 0x800 ≤ c → 4 ≤ byte_len (c ∷ s) → from_uci (c ∷ s) ≡ none
unfolding from_uci
from_uci_panics c s wide long = ground arith
