-- ===== src/Base/Texts.antt =====
-- A `String` as the list of its Unicode scalar values, with Rust's order on strings. UTF-8 keeps
-- the order of scalar values, so the lexicographic order here is the order of the bytes.
use Prim.Native.Nat.{ℕ}
use Prim.Native.Char.{code}
use Prim.Native.String.{String}
use mathlib.Core.Path.{◌≡◌, refl}
use mathlib.Core.Logic.{◌↔◌, ◌⊎◌, inl, inr}
use mathlib.Core.Bool.{Bool, true, false, ◌&&◌, ◌||◌}
use mathlib.Core.List.{List, [], ◌∷◌, ◌++◌, reverse}
use mathlib.Core.Option.{Option, none, some}
use native.Mathlib.Omega.{arith}
use ironfish.Base.Tests.{ltb, leb, nat_eqb, if◌then◌else◌, Eq}

abbrev pub Text : Type 0
Text = List ℕ

-- A literal of the source.
abbrev pub text : String → Text
text String.[] = []
text (String.◌∷◌ c s) = code c ∷ text s

abbrev pub text_eqb : Text → Text → Bool
text_eqb [] [] = true
text_eqb [] (y ∷ ys) = false
text_eqb (x ∷ xs) [] = false
text_eqb (x ∷ xs) (y ∷ ys) = nat_eqb x y && text_eqb xs ys

pub text_eqb_iff : (a b : Text) → (text_eqb a b ≡ true) ↔ (a ≡ b)
text_eqb_iff [] [] = ground arith
text_eqb_iff [] (y ∷ ys) = ground arith
text_eqb_iff (x ∷ xs) [] = ground arith
text_eqb_iff (x ∷ xs) (y ∷ ys) = ground (arith, text_eqb_iff xs ys)

instance abbrev pub text_eq : Eq Text
text_eq = record { same = text_eqb; same_iff = text_eqb_iff }

-- `a < b` on strings.
pub text_ltb : Text → Text → Bool
text_ltb [] [] = false
text_ltb [] (y ∷ ys) = true
text_ltb (x ∷ xs) [] = false
text_ltb (x ∷ xs) (y ∷ ys) = ltb x y || (nat_eqb x y && text_ltb xs ys)

pub text_ltb_irrefl : (a : Text) → text_ltb a a ≡ false
unfolding text_ltb
text_ltb_irrefl [] = refl
text_ltb_irrefl (x ∷ xs) = ground (arith, text_ltb_irrefl xs)

pub text_ltb_trans :
    (a b c : Text) → text_ltb a b ≡ true → text_ltb b c ≡ true → text_ltb a c ≡ true
unfolding text_ltb
text_ltb_trans [] [] c h k = cc
text_ltb_trans [] (y ∷ ys) [] h k = cc
text_ltb_trans [] (y ∷ ys) (z ∷ zs) h k = refl
text_ltb_trans (x ∷ xs) [] c h k = cc
text_ltb_trans (x ∷ xs) (y ∷ ys) [] h k = cc
text_ltb_trans (x ∷ xs) (y ∷ ys) (z ∷ zs) h k = ground (arith, text_ltb_trans xs ys zs)

pub text_ltb-total : (a b : Text) → (text_ltb a b ≡ true) ⊎ (text_ltb b a ≡ true) ⊎ (a ≡ b)
unfolding text_ltb
text_ltb-total [] [] = inr (inr refl)
text_ltb-total [] (y ∷ ys) = inl refl
text_ltb-total (x ∷ xs) [] = inr (inl refl)
text_ltb-total (x ∷ xs) (y ∷ ys) = ground (arith, text_ltb-total xs ys)

-- `str::starts_with` and `str::strip_prefix`.
unfoldable pub strip_prefix : Text → Text → Option Text
strip_prefix [] s = some s
strip_prefix (p ∷ ps) [] = none
strip_prefix (p ∷ ps) (c ∷ s) = if nat_eqb p c then strip_prefix ps s else none

pub strip_prefix_iff : (p s r : Text) → (strip_prefix p s ≡ some r) ↔ (s ≡ p ++ r)
unfolding strip_prefix
strip_prefix_iff [] s r = ground arith
strip_prefix_iff (p ∷ ps) [] r = ground arith
strip_prefix_iff (p ∷ ps) (c ∷ s) r = ground (arith, strip_prefix_iff ps s r)

abbrev pub starts_with : Text → Text → Bool
starts_with s p = elim (strip_prefix p s) [ none ↦ false | some r ↦ true ]

-- `char::is_whitespace`, the White_Space property of Unicode.
unfoldable pub is_whitespace : ℕ → Bool
is_whitespace c =
    (leb 9 c && leb c 13)
    || nat_eqb c 32
    || nat_eqb c 0x85
    || nat_eqb c 0xa0
    || nat_eqb c 0x1680
    || (leb 0x2000 c && leb c 0x200a)
    || nat_eqb c 0x2028
    || nat_eqb c 0x2029
    || nat_eqb c 0x202f
    || nat_eqb c 0x205f
    || nat_eqb c 0x3000

-- `str::split` at the characters that pass a test: the first piece, and those behind it.
unfoldable pub split_first : (ℕ → Bool) → Text → Text × List Text
split_first p [] = ([], [])
split_first p (c ∷ s) =
    let (piece, rest) = split_first p s in if p c then ([], piece ∷ rest) else (c ∷ piece, rest)

unfoldable pub split : (ℕ → Bool) → Text → List Text
unfolding split_first
split p s = let (piece, rest) = split_first p s in piece ∷ rest

abbrev pub is_empty : Text → Bool
is_empty [] = true
is_empty (c ∷ s) = false

unfoldable pub non_empty : List Text → List Text
non_empty [] = []
non_empty (w ∷ ws) = let rest = non_empty ws in if is_empty w then rest else w ∷ rest

-- `str::split_whitespace`: the pieces between white space, without the empty ones.
unfoldable pub split_whitespace : Text → List Text
unfolding split non_empty is_whitespace
split_whitespace s = non_empty (split is_whitespace s)

trim_start : Text → Text
unfolding is_whitespace
trim_start [] = []
trim_start (c ∷ s) = let rest = trim_start s in if is_whitespace c then rest else c ∷ s

-- `str::trim`.
unfoldable pub trim : Text → Text
unfolding trim_start
trim s = reverse (trim_start (reverse (trim_start s)))
