-- ===== src/Stockfish/Engine/Injection.antt =====
-- What a position may write to an engine.
use ironfish.Base.{
  true, false, List, [], ◌∷◌, ◌++◌, Text, text, text_eq, nat_eqb, any, split, split_first,
  split_whitespace, non_empty, is_whitespace, ◌≡◌, refl, ap, arith, ◌∙◌,
}
use ironfish.Core.Chess.{validate, fields_ok, ranks_ok, count_rank, is_ascii_digit, is_piece}
use ironfish.Stockfish.Service.{position}
use ironfish.Stockfish.Engine.{newline, command_text, written}

-- A position, a line break, and a text.
abbrev pub smuggle : Text → Text
smuggle command = text "8/8/8/8/8/8/8/8 w - -" ++ newline ∷ command

-- The lines that the engine reads.
abbrev pub lines : Text → List Text
lines s = split (nat_eqb newline) s

split_first-last :
    (s : Text)
    → any (nat_eqb newline) s ≡ false
    → split_first (nat_eqb newline) (s ++ newline ∷ []) ≡ (s, [] ∷ [])
unfolding split_first
split_first-last [] e = refl
split_first-last (ch ∷ s) e = ground (arith, split_first-last s, e)

lines_last : (s : Text) → any (nat_eqb newline) s ≡ false → lines (s ++ newline ∷ []) ≡ s ∷ [] ∷ []
unfolding split
lines_last s e = rw (split_first-last s e) refl

validate-smuggle : (command : Text) → validate (record { fen = smuggle command }) ≡ true
unfolding validate fields_ok ranks_ok count_rank split split_first split_whitespace non_empty
    is_whitespace is_ascii_digit is_piece
validate-smuggle command = refl

lines-smuggle :
    (command : Text)
    → lines (written (position (smuggle command)))
      ≡ text "position fen 8/8/8/8/8/8/8/8 w - -" ∷ lines (command ++ newline ∷ [])
unfolding position command_text split split_first
lines-smuggle command = refl

-- Any one line of text reaches the engine as a command of its own: behind a line break it makes
-- part of a position that `validate` accepts, and what is written for that position is the line
-- that sets it and then this line.
pub position-injects :
    (command : Text)
    → any (nat_eqb newline) command ≡ false
    → (validate (record { fen = smuggle command }) ≡ true)
      × (lines (written (position (smuggle command)))
          ≡ text "position fen 8/8/8/8/8/8/8/8 w - -" ∷ command ∷ [] ∷ [])
position-injects command one = (
  validate-smuggle command,
  lines-smuggle command
      ∙ ap (λ ls. text "position fen 8/8/8/8/8/8/8/8 w - -" ∷ ls) (lines_last command one),
)
