-- ===== src/Replace/Samples.antt =====
-- The theorem on rules at a concrete rule, and tests of the definitions.
use xtru.Common.{Bytes, codes, ok, ℕ, ◌+◌, ◌-◌, ◌*◌, ◌≡◌, refl, false, List, [], ◌∷◌, arith}
use xtru.Replace.Rules.{Rule, convert_string_format, matches, row_text}
use xtru.Replace.Pieces.{Piece, byte, place, WellSpelled, fill_source, HasWidths, HasIndices}
use xtru.Replace.Correct.{convert_string_format-fill}

abbrev atoi : Bytes → ℕ
atoi [] = 0
atoi (c ∷ []) = c - b'0'
atoi (c ∷ d ∷ s) = (c - b'0') * 10 + (d - b'0')

-- `TO_DATE('%4s-%2s'` becomes `'{1}/{0}'`.
abbrev source : List Piece
source = byte b'\'' ∷ place (codes "4") ∷ byte b'-' ∷ place (codes "2") ∷ byte b'\'' ∷ []

abbrev target : List Piece
target = place (codes "1") ∷ byte b'/' ∷ place (codes "0") ∷ []

abbrev words : List Bytes
words = codes "2023" ∷ codes "07" ∷ []

abbrev other : Rule
other = record { src = codes "NULL"; dst = codes "-" }

abbrev rule : Rule
rule = record { src = codes "'%4s-%2s'"; dst = codes "{1}/{0}" }

other_misses : matches atoi (fill_source source words) other.src ≡ ok false
unfolding matches
other_misses = refl

spelled_source : WellSpelled b'%' b's' source
spelled_source = (refl, (omega arith, (refl, tt), (refl, (omega arith, (refl, tt), (refl, tt)))))

spelled_target : WellSpelled b'{' b'}' target
spelled_target = (omega arith, (refl, tt), (refl, (omega arith, (refl, tt), tt)))

widths : HasWidths atoi source words
widths = (refl, omega arith, omega arith, (refl, omega arith, omega arith, refl))

indices : HasIndices atoi target words
indices = (omega arith, (omega arith, tt))

convert_string_format-fill_example :
    convert_string_format atoi (other ∷ rule ∷ []) (codes "'2023-07'xx") 9 ≡ ok (codes "07/2023")
convert_string_format-fill_example =
    convert_string_format-fill atoi (other ∷ []) [] source target words (codes "xx") spelled_source
      spelled_target widths indices (omega arith) (omega arith) (omega arith) (other_misses, tt)

abbrev no_rule : List Rule
no_rule = other ∷ []

no_rule_found : convert_string_format atoi no_rule (codes "SYSDATE") 7 ≡ ok (codes "SYSDATE")
unfolding convert_string_format matches
no_rule_found = refl

-- Nine bytes fill a row, which is then read together with the next one.
full_row : row_text 12 (codes "123456789" ∷ codes "x" ∷ []) ≡ ok (codes "123456789x")
full_row = refl
