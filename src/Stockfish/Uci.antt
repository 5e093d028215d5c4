-- ===== src/Stockfish/Uci.antt =====
-- crates/ironfish-stockfish/src/engine.rs: the lines that an engine writes.
pub mod Tokens
use ironfish.Base.{
  ℕ, zero, suc, ◌++◌, Bool, true, false, not, Option, none, some, List, [], ◌∷◌, Text, text,
  text_eq, ℤ, parse_unsigned, parse_signed, ◌==◌, if◌then◌else◌, length, get_elem?,
  split_whitespace, starts_with, trim,
}
use ironfish.Core.Error.{Result, ok, err}

pub record UciInfo : Type 0 where
  pub depth : Option ℕ
  pub seldepth : Option ℕ
  pub multipv : Option ℕ
  pub score_cp : Option ℤ
  pub score_mate : Option ℤ
  pub nodes : Option ℕ
  pub nps : Option ℕ
  pub time : Option ℕ
  pub pv : List Text
  pub currmove : Option Text
  pub hashfull : Option ℕ

-- `UciInfo::default()`
abbrev pub no_info : UciInfo
no_info = record {
  depth = none;
  seldepth = none;
  multipv = none;
  score_cp = none;
  score_mate = none;
  nodes = none;
  nps = none;
  time = none;
  pv = [];
  currmove = none;
  hashfull = none;
}

-- `parts.next()`: the next token, if there is one, and the ones behind it.
unfoldable pub next : List Text → Option Text × List Text
next [] = (none, [])
next (t ∷ ts) = (some t, ts)

unfoldable pub unsigned : ℕ → Option Text → Option ℕ
unsigned max none = none
unsigned max (some s) = parse_unsigned max s

unfoldable pub signed32 : Option Text → Option ℤ
signed32 none = none
signed32 (some s) = parse_signed 2147483647 s

-- The arms of the match on a token: the tokens still to read, and what has been read.
unfoldable pub score : List Text → UciInfo → List Text × UciInfo
unfolding next signed32
score [] info = ([], info)
score (kind ∷ ts) info =
    let (value, rest) = next ts in
    if kind == text "cp"
    then (rest, record info { score_cp = signed32 value })
    else if kind == text "mate"
    then (rest, record info { score_mate = signed32 value })
    else (ts, info)

unfoldable pub number_token :
    ℕ → (Option ℕ → UciInfo → UciInfo) → List Text → UciInfo → List Text × UciInfo
unfolding next unsigned
number_token max set ts info = let (value, rest) = next ts in (rest, set (unsigned max value) info)

unfoldable pub move_token : List Text → UciInfo → List Text × UciInfo
unfolding next
move_token ts info = let (value, rest) = next ts in (rest, record info { currmove = value })

-- The largest values of `u8`, `u16` and `u64`.
abbrev pub u8_max : ℕ
u8_max = 255

abbrev pub u16_max : ℕ
u16_max = 65535

abbrev pub u64_max : ℕ
u64_max = 18446744073709551615

-- `pv` reads all the tokens that are left, which ends the loop.
unfoldable pub read_token : Text → List Text → UciInfo → List Text × UciInfo
unfolding number_token move_token score
read_token token ts info =
    if token == text "depth"
    then number_token u8_max (λ v i. record i { depth = v }) ts info
    else if token == text "seldepth"
    then number_token u8_max (λ v i. record i { seldepth = v }) ts info
    else if token == text "multipv"
    then number_token u8_max (λ v i. record i { multipv = v }) ts info
    else if token == text "score"
    then score ts info
    else if token == text "nodes"
    then number_token u64_max (λ v i. record i { nodes = v }) ts info
    else if token == text "nps"
    then number_token u64_max (λ v i. record i { nps = v }) ts info
    else if token == text "time"
    then number_token u64_max (λ v i. record i { time = v }) ts info
    else if token == text "hashfull"
    then number_token u16_max (λ v i. record i { hashfull = v }) ts info
    else if token == text "currmove"
    then move_token ts info
    else if token == text "pv"
    then ([], record info { pv = info.pv ++ ts })
    else (ts, info)

-- The loop over the tokens. Each round takes one or more of them, so their number is fuel enough.
unfoldable pub read_tokens : ℕ → List Text → UciInfo → UciInfo
unfolding read_token
read_tokens zero ts info = info
read_tokens (suc n) [] info = info
read_tokens (suc n) (t ∷ ts) info =
    let (rest, read) = read_token t ts info in read_tokens n rest read

unfoldable pub parse_info_tokens : List Text → Option UciInfo
unfolding read_tokens
parse_info_tokens [] = none
parse_info_tokens (t ∷ ts) =
    if t == text "info" then some (read_tokens (length ts) ts no_info) else none

-- `UciInfo::parse`
unfoldable pub parse_info : Text → Option UciInfo
unfolding parse_info_tokens
parse_info line = parse_info_tokens (split_whitespace line)

pub record BestMove : Type 0 where
  pub mv : Text
  pub ponder : Option Text

-- The token behind the first `ponder`.
unfoldable pub behind_ponder : List Text → Option Text
behind_ponder [] = none
behind_ponder (t ∷ ts) =
    let rest = behind_ponder ts in if t == text "ponder" then get_elem? ts 0 else rest

best_move_tokens : List Text → Option BestMove
unfolding behind_ponder
best_move_tokens [] = none
best_move_tokens (t ∷ []) = none
best_move_tokens (t ∷ mv ∷ ts) = some (record { mv = mv; ponder = behind_ponder (t ∷ mv ∷ ts) })

-- `BestMove::parse`
unfoldable pub parse_best_move : Text → Option BestMove
unfolding best_move_tokens
parse_best_move line =
    if starts_with line (text "bestmove") then best_move_tokens (split_whitespace line) else none
