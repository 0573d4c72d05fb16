-- ===== src/Replace/Rules.antt =====
-- app/xtru/getmeta/cFunctionalReplace.cpp: the class `cFunctionalReplace`. A C string is the list of its
-- bytes without the end mark; a read or a write outside an object is `fault`. `atoi` of the C library is a
-- parameter, at texts without a sign.
use xtru.Common.{
  ltb, leb, ◌==◌, if◌then◌else◌, Bytes, length, take, drop, Result, ◌>>=◌, ◌>>◌, guard,
  out_of_range, aborted, fault, ok, err, is_empty, ℕ, zero, suc, ◌+◌, ◌-◌, Bool, true, false,
  Option, none, some, List, [], ◌∷◌, ◌++◌,
}

pub record Rule : Type 0 where
  pub src : Bytes
  pub dst : Bytes

abbrev pub max_num_chars : ℕ
max_num_chars = 9

abbrev pub max_num_variables : ℕ
max_num_variables = 12

abbrev pub max_digits : ℕ
max_digits = 3

abbrev pub buffer_size : ℕ
buffer_size = 108

-- `atoi(digit_)` wants an end mark in the array, and `p += n` one not before the new place.
abbrev pub skip : (Bytes → ℕ) → Bytes → Bytes → Result Bytes
skip atoi digits p =
    guard (ltb (length digits) max_digits) fault
    >> (guard (leb (atoi digits) (length p)) fault >> ok (drop (atoi digits) p))

-- One row of the table as a C string: a full row has no end mark and goes on in the next row. `left` is
-- the number of rows from this one to the end of the table.
abbrev pub row_text : ℕ → List Bytes → Result Bytes
row_text zero rows = err fault
row_text (suc left) [] = ok []
row_text (suc left) (r ∷ rows) = elim (length r == max_num_chars) [
  | true ↦ row_text left rows >>= λ t. ok (r ++ t)
  | false ↦ ok r
]

module _ (atoi : Bytes → ℕ) where
  unfoldable mutual
    -- `operator()` of `cTranslator`.
    pub matches : Bytes → Bytes → Result Bool
    matches [] q = ok true
    matches (c ∷ p) [] = ok true
    matches (c ∷ p) (d ∷ q) = elim (d == b'%') [
      | true ↦ matches_digits (c ∷ p) q []
      | false ↦ elim (c == d) [ true ↦ matches p q | false ↦ ok false ]
    ]

    pub matches_digits : Bytes → Bytes → Bytes → Result Bool
    matches_digits p [] digits = err fault
    matches_digits p (d ∷ q) digits = elim (d == b's') [
      | true ↦ skip atoi digits p >>= λ p'. matches p' q
      | false ↦
          guard (ltb (length digits) max_digits) fault >> matches_digits p q (digits ++ d ∷ [])
    ]

  -- What the body of `vTransferMarkupLocation` does at a field: the rest of the text, and the table.
  unfoldable pub store : Bytes → Bytes → List Bytes → Result (Bytes × List Bytes)
  store digits p table =
      let n = atoi digits in
      do
        guard (leb (length table) max_num_variables) out_of_range
        guard (ltb (length digits) max_digits) fault
        guard (leb n max_num_chars) out_of_range
        guard (ltb (length table) max_num_variables) fault
        guard (leb n (length p)) fault
        ok (drop n p, table ++ take n p ∷ [])

  unfoldable mutual
    unfolding store

    -- `vTransferMarkupLocation`; behind the end mark of the rule no byte can be read.
    pub transfer : Bytes → Bytes → List Bytes → Result (List Bytes)
    transfer [] q table = ok table
    transfer (c ∷ p) [] table = if is_empty p then ok table else err fault
    transfer (c ∷ p) (d ∷ q) table = elim (d == b'%') [
      | true ↦ transfer_digits (c ∷ p) q [] table
      | false ↦ transfer p q table
    ]

    pub transfer_digits : Bytes → Bytes → Bytes → List Bytes → Result (List Bytes)
    transfer_digits p [] digits table = err fault
    transfer_digits p (d ∷ q) digits table = elim (d == b's') [
      | true ↦ store digits p table >>= λ r. transfer r.0 q r.1
      | false ↦
          guard (ltb (length digits) max_digits) fault
          >> transfer_digits p q (digits ++ d ∷ []) table
    ]

  -- `strcpy` of a row behind what is written, and the assertion on the size.
  unfoldable pub append_row : Bytes → List Bytes → Bytes → Result Bytes
  append_row digits table out =
      guard (ltb (length digits) max_digits) fault
      >> (row_text (max_num_variables - atoi digits) (drop (atoi digits) table) >>= λ t.
          guard (ltb (length out + length t) buffer_size) fault
          >> (guard (ltb (length out + length t) buffer_size) out_of_range >> ok (out ++ t)))

  unfoldable mutual
    unfolding append_row

    -- `sReplaceMarkupLocation`
    pub replace : Bytes → List Bytes → Bytes → Result Bytes
    replace [] table out = guard (ltb (length out) buffer_size) fault >> ok out
    replace (d ∷ q) table out = elim (d == b'{') [
      | true ↦ replace_digits q [] table out
      | false ↦ guard (ltb (length out) buffer_size) fault >> replace q table (out ++ d ∷ [])
    ]

    pub replace_digits : Bytes → Bytes → List Bytes → Bytes → Result Bytes
    replace_digits [] digits table out = err fault
    replace_digits (d ∷ q) digits table out = elim (d == b'}') [
      | true ↦ append_row digits table out >>= λ out'. replace q table out'
      | false ↦
          guard (ltb (length digits) max_digits) fault
          >> replace_digits q (digits ++ d ∷ []) table out
    ]

  -- `std::find_if` over the rules.
  unfoldable pub find_rule : Bytes → List Rule → Result (Option Rule)
  unfolding matches
  find_rule text [] = ok none
  find_rule text (r ∷ rules) = matches text r.src >>= λ found. elim found [
    | true ↦ ok (some r)
    | false ↦ find_rule text rules
  ]

  -- What is done with the rule that was found, or with none.
  unfoldable pub apply_rule : Bytes → Bytes → Option Rule → Result Bytes
  unfolding transfer replace
  apply_rule formed text none = ok formed
  apply_rule formed text (some r) = transfer text r.src [] >>= λ table. replace r.dst table []

  -- `sConvertStringFormat`
  unfoldable pub convert_string_format : List Rule → Bytes → ℕ → Result Bytes
  unfolding find_rule apply_rule
  convert_string_format rules formed len = do
    guard (ltb 0 len) aborted
    guard (ltb 0 (length rules)) aborted
    guard (leb len (length formed + 1)) fault
    let text = take len formed
    found ← find_rule text rules
    apply_rule formed text found
