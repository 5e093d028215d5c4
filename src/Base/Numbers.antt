-- ===== src/Base/Numbers.antt =====
-- Whole numbers, and `str::parse` at the integer types.
use Prim.Native.Nat.{ℕ, ◌+◌, ◌-◌, ◌*◌, ◌≤◌, ◌<◌}
use mathlib.Core.Path.{◌≡◌}
use native.Mathlib.Omega.{arith}
use mathlib.Core.Bool.{◌&&◌, false}
use mathlib.Core.List.{[], ◌∷◌, ◌++◌}
use mathlib.Core.Option.{Option, none, some}
use mathlib.Core.Logic.{inl, inr}
use ironfish.Base.Tests.{Bool-cases, if◌then◌else◌, leb, nat_eqb}
use ironfish.Base.Texts.{Text}

-- `negsuc n` is `- (n + 1)`.
pub data ℤ : Type 0 where
  pos negsuc : ℕ → ℤ

abbrev pub neg : ℕ → ℤ
neg n = if nat_eqb n 0 then pos 0 else negsuc (n - 1)

-- The digits behind a number read so far: `none` at any other character.
digits : ℕ → Text → Option ℕ
digits n [] = some n
digits n (c ∷ s) =
    let rest = digits (10 * n + (c - b'0')) s in if leb b'0' c && leb c b'9' then rest else none

-- At least one digit.
unfoldable pub magnitude : Text → Option ℕ
unfolding digits
magnitude [] = none
magnitude (c ∷ s) = digits 0 (c ∷ s)

at_most : ℕ → Option ℕ → Option ℕ
at_most max none = none
at_most max (some n) = if leb n max then some n else none

-- `parse` at an unsigned type: a sign `+` is allowed.
unfoldable pub parse_unsigned : ℕ → Text → Option ℕ
unfolding magnitude at_most
parse_unsigned max [] = none
parse_unsigned max (c ∷ s) = at_most max (if nat_eqb c b'+' then magnitude s else magnitude (c ∷ s))

signed : (ℕ → ℤ) → Option ℕ → Option ℤ
signed f none = none
signed f (some n) = some (f n)

-- `parse` at a signed type with this largest value.
unfoldable pub parse_signed : ℕ → Text → Option ℤ
unfolding magnitude at_most signed
parse_signed max [] = none
parse_signed max (c ∷ s) =
    if nat_eqb c b'-'
    then signed neg (at_most (max + 1) (magnitude s))
    else signed pos (parse_unsigned max (c ∷ s))

at_most-le : (max : ℕ) (o : Option ℕ) (n : ℕ) → at_most max o ≡ some n → n ≤ max
unfolding at_most
at_most-le max none n e = ground (arith, e)
at_most-le max (some m) n e = ground (arith, e)

pub parse_unsigned-le : (max : ℕ) (s : Text) (n : ℕ) → parse_unsigned max s ≡ some n → n ≤ max
unfolding parse_unsigned
parse_unsigned-le max [] n e = ground (arith, e)
parse_unsigned-le max (c ∷ s) n e =
    at_most-le max (if nat_eqb c b'+' then magnitude s else magnitude (c ∷ s)) n e

digits_snoc :
    (s : Text) (a v c : ℕ)
    → digits a s ≡ some v
    → b'0' ≤ c
    → c ≤ b'9'
    → digits a (s ++ c ∷ []) ≡ some (10 * v + (c - b'0'))
unfolding digits
digits_snoc [] a v c e lo hi = ground (arith, e, lo, hi)
digits_snoc (d ∷ s) a v c e lo hi = elim (Bool-cases (leb b'0' d && leb d b'9')) [
  | inl q ↦ rw q (digits_snoc s (10 * a + (d - b'0')) v c (ground (arith, e, q)) lo hi)
  | inr q ↦ absurd (ground (arith, e, q))
]

pub magnitude_snoc :
    (s : Text) (v c : ℕ)
    → magnitude s ≡ some v
    → b'0' ≤ c
    → c ≤ b'9'
    → magnitude (s ++ c ∷ []) ≡ some (10 * v + (c - b'0'))
unfolding magnitude
magnitude_snoc [] v c e lo hi = ground (arith, e)
magnitude_snoc (d ∷ s) v c e lo hi = digits_snoc (d ∷ s) 0 v c e lo hi

pub magnitude_digit : (n : ℕ) → n < 10 → magnitude ((b'0' + n) ∷ []) ≡ some n
unfolding magnitude digits
magnitude_digit n small = ground (arith, small)

-- Digits without a sign: read as they are if the number fits.
pub parse_unsigned-magnitude :
    (max : ℕ) (s : Text) (n : ℕ)
    → magnitude s ≡ some n
    → parse_unsigned max s ≡ (if leb n max then some n else none)
unfolding parse_unsigned magnitude digits
parse_unsigned-magnitude max [] n e = ground (arith, e)
parse_unsigned-magnitude max (c ∷ s) n e = ground (arith, e)

pub parse_signed-magnitude :
    (max : ℕ) (s : Text) (n : ℕ)
    → magnitude s ≡ some n
    → (parse_signed max s ≡ (if leb n max then some (pos n) else none))
      × (parse_signed max (b'-' ∷ s) ≡ (if leb n (max + 1) then some (neg n) else none))
unfolding parse_signed magnitude digits signed at_most
parse_signed-magnitude max [] n e = ground (arith, e)
parse_signed-magnitude max (c ∷ s) n e =
    let plain : nat_eqb c b'-' ≡ false = ground (arith, e) in
    (ground (arith, plain, parse_unsigned-magnitude max (c ∷ s) n e), rw e (ground arith))
