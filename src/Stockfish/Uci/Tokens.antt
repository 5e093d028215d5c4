-- ===== src/Stockfish/Uci/Tokens.antt =====
-- What the reading of a line with information gives.
use ironfish.Base.{
  ℕ, zero, suc, ◌≤◌, Bool, true, false, Option, none, some, List, [], ◌∷◌, ◌++◌, Text, text,
  text_eq, ◌==◌, if◌then◌else◌, length, ◌≡◌, refl, parse_unsigned, parse_unsigned-le, subst,
  split_whitespace, arith,
}
use ironfish.Stockfish.Uci.{
  UciInfo, no_info, next, unsigned, number_token, move_token, score, read_token, read_tokens,
  parse_info, parse_info_tokens, u8_max, u16_max, u64_max, signed32,
}

abbrev AtMost : ℕ → Option ℕ → Type 0
AtMost max none = Unit
AtMost max (some n) = n ≤ max

-- The fields fit their types.
abbrev Fits : UciInfo → Type 0
Fits i =
    (AtMost u8_max i.depth × AtMost u8_max i.seldepth × AtMost u8_max i.multipv)
    × (AtMost u64_max i.nodes × AtMost u64_max i.nps × AtMost u64_max i.time)
    × AtMost u16_max i.hashfull

-- One round leaves fewer tokens, and keeps what the fields fit.
record IsRound (ts : List Text) (r : List Text × UciInfo) : Type 0 where
  fewer : length r.0 ≤ length ts
  fits : Fits r.1

AtMost-le : (max : ℕ) (o : Option ℕ) → ((n : ℕ) → o ≡ some n → n ≤ max) → AtMost max o
AtMost-le max none h = tt
AtMost-le max (some n) h = h n refl

unsigned-AtMost : (max : ℕ) (t : Option Text) → AtMost max (unsigned max t)
unfolding unsigned
unsigned-AtMost max none = tt
unsigned-AtMost max (some s) = AtMost-le max (parse_unsigned max s) (parse_unsigned-le max s)

number_token-IsRound :
    (max : ℕ) (set : Option ℕ → UciInfo → UciInfo) (ts : List Text) (i : UciInfo)
    → ((v : Option ℕ) → AtMost max v → Fits (set v i))
    → IsRound ts (number_token max set ts i)
unfolding number_token next
number_token-IsRound max set [] i keeps = record { fewer = ground arith; fits = keeps none tt }
number_token-IsRound max set (t ∷ ts) i keeps = record {
  fewer = ground arith;
  fits = keeps (unsigned max (some t)) (unsigned-AtMost max (some t));
}

IsRound-intro :
    (ts rest : List Text) (i : UciInfo) → length rest ≤ length ts → Fits i → IsRound ts (rest, i)
IsRound-intro ts rest i fewer fits = record { fewer = fewer; fits = fits }

branch :
    {ts : List Text} {x y : List Text × UciInfo} (b : Bool)
    → IsRound ts x
    → IsRound ts y
    → IsRound ts (if b then x else y)
branch true l r = l
branch false l r = r

score-IsRound : (ts : List Text) (i : UciInfo) → Fits i → IsRound ts (score ts i)
unfolding score next
score-IsRound [] i fits = IsRound-intro [] [] i (ground arith) fits
score-IsRound (k ∷ []) i fits =
    branch (k == text "cp")
      (IsRound-intro (k ∷ []) [] (record i { score_cp = none }) (ground arith) fits)
      (branch (k == text "mate")
        (IsRound-intro (k ∷ []) [] (record i { score_mate = none }) (ground arith) fits)
        (IsRound-intro (k ∷ []) [] i (ground arith) fits))
score-IsRound (k ∷ v ∷ ts) i fits =
    let read = signed32 (some v) in
    branch (k == text "cp")
      (IsRound-intro (k ∷ v ∷ ts) ts (record i { score_cp = read }) (ground arith) fits)
      (branch (k == text "mate")
        (IsRound-intro (k ∷ v ∷ ts) ts (record i { score_mate = read }) (ground arith) fits)
        (IsRound-intro (k ∷ v ∷ ts) (v ∷ ts) i (ground arith) fits))

move_token-IsRound : (ts : List Text) (i : UciInfo) → Fits i → IsRound ts (move_token ts i)
unfolding move_token next
move_token-IsRound [] i fits = record { fewer = ground arith; fits = fits }
move_token-IsRound (t ∷ ts) i fits = record { fewer = ground arith; fits = fits }

read_token-IsRound :
    (t : Text) (ts : List Text) (i : UciInfo) → Fits i → IsRound ts (read_token t ts i)
unfolding read_token
read_token-IsRound t ts i fits =
    let ((d, s, m), (n, p, w), h) = fits in
    branch (t == text "depth")
      (number_token-IsRound u8_max (λ v j. record j { depth = v }) ts i
        (λ v b. ((b, s, m), (n, p, w), h)))
      (branch (t == text "seldepth")
        (number_token-IsRound u8_max (λ v j. record j { seldepth = v }) ts i
          (λ v b. ((d, b, m), (n, p, w), h)))
        (branch (t == text "multipv")
          (number_token-IsRound u8_max (λ v j. record j { multipv = v }) ts i
            (λ v b. ((d, s, b), (n, p, w), h)))
          (branch (t == text "score") (score-IsRound ts i fits) (
            branch (t == text "nodes")
              (number_token-IsRound u64_max (λ v j. record j { nodes = v }) ts i
                (λ v b. ((d, s, m), (b, p, w), h)))
              (branch (t == text "nps")
                (number_token-IsRound u64_max (λ v j. record j { nps = v }) ts i
                  (λ v b. ((d, s, m), (n, b, w), h)))
                (branch (t == text "time")
                  (number_token-IsRound u64_max (λ v j. record j { time = v }) ts i
                    (λ v b. ((d, s, m), (n, p, b), h)))
                  (branch (t == text "hashfull")
                    (number_token-IsRound u16_max (λ v j. record j { hashfull = v }) ts i
                      (λ v b. ((d, s, m), (n, p, w), b)))
                    (branch (t == text "currmove") (move_token-IsRound ts i fits) (
                      branch (t == text "pv")
                        (IsRound-intro ts [] (record i { pv = i.pv ++ ts }) (ground arith) fits)
                        (IsRound-intro ts ts i (ground arith) fits))))))))))

read_tokens-Fits : (n : ℕ) (ts : List Text) (i : UciInfo) → Fits i → Fits (read_tokens n ts i)
unfolding read_tokens
read_tokens-Fits zero ts i fits = fits
read_tokens-Fits (suc n) [] i fits = fits
read_tokens-Fits (suc n) (t ∷ ts) i fits =
    read_tokens-Fits n (read_token t ts i).0 (read_token t ts i).1
      (read_token-IsRound t ts i fits).fits

-- As many rounds as there are tokens read them all: more rounds read nothing else.
read_tokens-enough :
    (n m : ℕ) (ts : List Text) (i : UciInfo)
    → Fits i
    → length ts ≤ n
    → length ts ≤ m
    → read_tokens n ts i ≡ read_tokens m ts i
unfolding read_tokens
read_tokens-enough zero zero ts i fits a b = refl
read_tokens-enough zero (suc m) [] i fits a b = refl
read_tokens-enough zero (suc m) (t ∷ ts) i fits a b = ground (arith, a)
read_tokens-enough (suc n) zero [] i fits a b = refl
read_tokens-enough (suc n) zero (t ∷ ts) i fits a b = ground (arith, b)
read_tokens-enough (suc n) (suc m) [] i fits a b = refl
read_tokens-enough (suc n) (suc m) (t ∷ ts) i fits a b =
    let round = read_token-IsRound t ts i fits in
    read_tokens-enough n m (read_token t ts i).0 (read_token t ts i).1 round.fits
      (ground (arith, round.fewer, a)) (ground (arith, round.fewer, b))

parse_info_tokens-Fits : (ts : List Text) (i : UciInfo) → parse_info_tokens ts ≡ some i → Fits i
unfolding parse_info_tokens
parse_info_tokens-Fits [] i e = ground (arith, e)
parse_info_tokens-Fits (t ∷ ts) i e =
    same (ground (arith, e))
      (read_tokens-Fits (length ts) ts no_info ((tt, tt, tt), (tt, tt, tt), tt))
  where
    same :
        read_tokens (length ts) ts no_info ≡ i → Fits (read_tokens (length ts) ts no_info) → Fits i
    same q = subst Fits q

-- The numbers of a line with information fit the types of their fields.
parse_info-Fits : (line : Text) (i : UciInfo) → parse_info line ≡ some i → Fits i
unfolding parse_info
parse_info-Fits line i e = parse_info_tokens-Fits (split_whitespace line) i e
