-- ===== src/Replace/Pieces.antt =====
-- app/xtru/getmeta/cFunctionalReplace.cpp: what the two texts of a rule stand for.
use xtru.Common.{
  ◌==◌, Bytes, length, get_elem?, All, ℕ, ◌<◌, ◌≡◌, false, none, some, List, [], ◌∷◌, ◌++◌,
}
use xtru.Replace.Rules.{max_digits, max_num_chars}

-- A rule's text by its pieces: a byte, or a place with the digits of its number.
pub data Piece : Type 0 where
  byte : ℕ → Piece
  place : Bytes → Piece

-- Between `%` and `s`, or between `{` and `}`.
abbrev pub spell : ℕ → ℕ → List Piece → Bytes
spell opens closes [] = []
spell opens closes (byte c ∷ ps) = c ∷ spell opens closes ps
spell opens closes (place digits ∷ ps) = opens ∷ (digits ++ closes ∷ spell opens closes ps)

abbrev pub Free : ℕ → Bytes → Type 0
Free c = All (λ d. (d == c) ≡ false)

-- The bytes are no opening mark, and the digits fit the array and hold no closing mark.
abbrev pub WellSpelled : ℕ → ℕ → List Piece → Type 0
WellSpelled opens closes [] = Unit
WellSpelled opens closes (byte c ∷ ps) = ((c == opens) ≡ false) × WellSpelled opens closes ps
WellSpelled opens closes (place digits ∷ ps) =
    (length digits < max_digits) × Free closes digits × WellSpelled opens closes ps

-- The text that has the given words at the places of a source.
abbrev pub fill_source : List Piece → List Bytes → Bytes
fill_source [] ws = []
fill_source (byte c ∷ ps) ws = c ∷ fill_source ps ws
fill_source (place digits ∷ ps) [] = fill_source ps []
fill_source (place digits ∷ ps) (w ∷ ws) = w ++ fill_source ps ws

module _ (atoi : Bytes → ℕ) where
  -- There is one word for each place, of the width that its number says, which is from 1 to 8.
  abbrev pub HasWidths : List Piece → List Bytes → Type 0
  HasWidths [] ws = length ws ≡ 0
  HasWidths (byte c ∷ ps) ws = HasWidths ps ws
  HasWidths (place digits ∷ ps) [] = ⊥
  HasWidths (place digits ∷ ps) (w ∷ ws) =
      (atoi digits ≡ length w) × (0 < length w) × (length w < max_num_chars) × HasWidths ps ws

  abbrev pub word : List Bytes → ℕ → Bytes
  word ws k = elim (get_elem? ws k) [ none ↦ [] | some w ↦ w ]

  -- The text of a destination, in which the number at a place is the index of a word.
  abbrev pub fill_target : List Piece → List Bytes → Bytes
  fill_target [] ws = []
  fill_target (byte c ∷ ps) ws = c ∷ fill_target ps ws
  fill_target (place digits ∷ ps) ws = word ws (atoi digits) ++ fill_target ps ws

  abbrev pub HasIndices : List Piece → List Bytes → Type 0
  HasIndices [] ws = Unit
  HasIndices (byte c ∷ ps) ws = HasIndices ps ws
  HasIndices (place digits ∷ ps) ws = (atoi digits < length ws) × HasIndices ps ws
