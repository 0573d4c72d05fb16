-- ===== src/Text/Samples.antt =====
-- The theorems on texts and numbers at concrete inputs, and tests of the definitions.
use xtru.Common.{
  Bytes, codes, same, get_elem?, take, All, fault, err, ok, ℕ, ◌*◌, ◌^◌, ◌≡◌, refl, ◌↔◌, ◌⊎◌, Bool,
  true, false, some, [], ◌∷◌, ◌++◌, arith,
}
use xtru.Common.Decimal.{decimal}
use xtru.Text.Wild.{wild_strmatch, Matches, wild_strmatch_iff}
use xtru.Text.Names.{matched_backward, EndsWith, matched_backward_iff}
use xtru.Text.Trim.{trim, white_space, Trimmed, trim-Trimmed}
use xtru.Text.Cascade.{
  cascade_binary_and, cascade_binary_or, cascade_ternary_and, cascade_ternary_or, Related, Some,
  cascade_ternary_iff,
}
use xtru.Text.Placeholders.{conv_place_holder, conv_spec, conv_place_holder_lem}
use xtru.Text.Numbers.{
  is_negative, grouped_digits, int_to_a, Spells, magnitude, absolute, sign_char, positive_part,
  symbols, shift_right, bin_int_to_int_str, Least, int_to_a-Spells, bin_int_to_int_str_lem,
}

wild_strmatch_iff_example :
    (wild_strmatch (codes "A*_?") (codes "ACC_1") ≡ true) ↔ Matches (codes "A*_?") (codes "ACC_1")
wild_strmatch_iff_example = wild_strmatch_iff (codes "A*_?") (codes "ACC_1")

matched_backward_iff_example :
    (matched_backward (codes "dir/emp") (codes "emp") ≡ true)
    ↔ (EndsWith (codes "dir/emp") (codes "emp") ⊎ EndsWith (codes "emp") (codes "dir/emp"))
matched_backward_iff_example = matched_backward_iff (codes "dir/emp") (codes "emp")

trim-Trimmed_example : Trimmed white_space (codes " a b ") (trim white_space (codes " a b "))
trim-Trimmed_example = trim-Trimmed white_space (codes " a b ")

trimmed : trim white_space (codes " a b ") ≡ codes "a b"
unfolding trim
trimmed = refl

conv_place_holder_lem_example :
    conv_place_holder (codes "7" ∷ []) (codes "id=%s") ≡ conv_spec (codes "7" ∷ []) (codes "id=%s")
conv_place_holder_lem_example = conv_place_holder_lem (codes "7" ∷ []) (codes "id=%s")

one_value : conv_place_holder (codes "7" ∷ []) (codes "id=%s or %s") ≡ ok (codes "id=7 or %s")
unfolding conv_place_holder
one_value = refl

int_to_a-Spells_example :
    (s : Bytes) × (int_to_a 3 1234567 ≡ ok (sign_char 1234567 ∷ s)) × Spells (absolute 1234567) s
int_to_a-Spells_example = int_to_a-Spells 1234567 (omega arith) (omega arith)

grouped : int_to_a 3 1234567 ≡ ok (codes " 1,234,567")
unfolding int_to_a is_negative grouped_digits positive_part magnitude
grouped = refl

least_number : int_to_a 3 (2 ^ 63) ≡ err fault
unfolding int_to_a magnitude
least_number = refl

bin_int_to_int_str_lem_example :
    (k : ℕ) × (c : ℕ) × Least (absolute 20480) k
    × (get_elem? symbols k ≡ some c)
    × (bin_int_to_int_str decimal 20480 (codes " ")
        ≡ ok (some (decimal (shift_right 20480 (k * 10)) ++ (codes " " ++ c ∷ []))))
bin_int_to_int_str_lem_example =
    bin_int_to_int_str_lem decimal 20480 (codes " ") (omega arith) (omega arith)

-- The documentation has "123k".
with_space : bin_int_to_int_str decimal 125952 (codes " ") ≡ ok (some (codes "123 k"))
unfolding bin_int_to_int_str magnitude positive_part decimal
with_space = refl

abbrev first_same : Bytes → Bytes → ℕ → Bool
first_same s t n = same (take n s) (take n t)

cascade_ternary_iff_example :
    ((cascade_ternary_or first_same (codes "NORMAL/REV") (codes "NORMAL" ∷ codes "BITMAP" ∷ [])
        ≡ true)
      ↔ Some (Related (codes "NORMAL/REV")) (codes "NORMAL" ∷ codes "BITMAP" ∷ []))
    × ((cascade_ternary_and first_same (codes "NORMAL/REV") (codes "NORMAL" ∷ codes "BITMAP" ∷ [])
          ≡ true)
        ↔ All (Related (codes "NORMAL/REV")) (codes "NORMAL" ∷ codes "BITMAP" ∷ []))
cascade_ternary_iff_example =
    cascade_ternary_iff first_same (codes "NORMAL/REV") (λ s t n. refl)
      (codes "NORMAL" ∷ codes "BITMAP" ∷ [])

-- An empty text agrees with each.
empty_agrees : cascade_ternary_or first_same [] (codes "NORMAL" ∷ []) ≡ true
unfolding cascade_ternary_or
empty_agrees = refl

one_of_two : cascade_binary_or same (codes "RAW") (codes "NCHAR" ∷ codes "RAW" ∷ []) ≡ true
unfolding cascade_binary_or
one_of_two = refl

not_both : cascade_binary_and same (codes "RAW") (codes "NCHAR" ∷ codes "RAW" ∷ []) ≡ false
unfolding cascade_binary_and
not_both = refl
