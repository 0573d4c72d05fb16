-- ===== src/Replace/Correct.antt =====
-- app/xtru/getmeta/cFunctionalReplace.cpp: a text that a rule stands for is rewritten as the rule says.
use xtru.Common.{
  ◌==◌, lt→ltb, le→leb, Bytes, length, drop, All, length-append, take-append_length, ◌>>=◌, ok, ℕ,
  zero, suc, ◌+◌, ◌-◌, ◌≤◌, ◌<◌, ◌≡◌, refl, sym, ap, ◌∙◌, true, false, some, List, [], ◌∷◌, ◌++◌,
  append-nil, append_assoc, arith,
}
use xtru.Replace.Rules.{
  Rule, max_digits, max_num_chars, max_num_variables, buffer_size, row_text, matches, append_row,
  replace, replace_digits, find_rule, apply_rule, convert_string_format,
}
use xtru.Replace.Pieces.{
  Piece, byte, place, spell, WellSpelled, fill_source, HasWidths, word, fill_target, HasIndices,
}
use xtru.Replace.Source.{length-snoc, replace_digits-all, matches-fill_source, transfer-fill_source}

module _ (atoi : Bytes → ℕ) where
  HasWidths-short :
      (ps : List Piece) (ws : List Bytes)
      → HasWidths atoi ps ws
      → All (λ w. length w < max_num_chars) ws
  HasWidths-short [] [] hw = tt
  HasWidths-short [] (w ∷ ws) hw = absurd (omega (arith, hw))
  HasWidths-short (byte c ∷ ps) ws hw = HasWidths-short ps ws hw
  HasWidths-short (place ds ∷ ps) [] hw = tt
  HasWidths-short (place ds ∷ ps) (w ∷ ws) hw = (hw.2, HasWidths-short ps ws hw.3)

  row_text-head :
      (n : ℕ) (w : Bytes) (ws : List Bytes)
      → length w < max_num_chars
      → row_text (suc n) (w ∷ ws) ≡ ok w
  row_text-head n w ws h =
      let short : (length w == max_num_chars) ≡ false = ground arith in rw (short, row_text) refl

  row_text-word :
      (n k : ℕ) (ws : List Bytes)
      → All (λ w. length w < max_num_chars) ws
      → length ws ≤ n
      → k < length ws
      → row_text (n - k) (drop k ws) ≡ ok (word atoi ws k)
  row_text-word n k [] short le lt = absurd (omega arith)
  row_text-word zero k (w ∷ ws) short le lt = absurd (omega arith)
  row_text-word (suc n) zero (w ∷ ws) short le lt =
      let whole : suc n - 0 ≡ suc n = omega arith in
      ap (λ m. row_text m (w ∷ ws)) whole ∙ row_text-head n w ws short.0
  row_text-word (suc n) (suc k) (w ∷ ws) short le lt =
      let less : suc n - suc k ≡ n - k = omega arith in
      ap (λ m. row_text m (drop k ws)) less
      ∙ row_text-word n k ws short.1 (omega arith) (omega arith)

  append_row-word :
      (ds out : Bytes) (ws : List Bytes)
      → length ds < max_digits
      → All (λ w. length w < max_num_chars) ws
      → length ws ≤ max_num_variables
      → atoi ds < length ws
      → length out + length (word atoi ws (atoi ds)) < buffer_size
      → append_row atoi ds ws out ≡ ok (out ++ word atoi ws (atoi ds))
  unfolding append_row
  append_row-word ds out ws h short le lt fits =
      rw
        (
          lt→ltb (length ds) max_digits h,
          row_text-word max_num_variables (atoi ds) ws short le lt,
          lt→ltb (length out + length (word atoi ws (atoi ds))) buffer_size fits,
        )
        refl

  replace-byte :
      (c : ℕ) (q : Bytes) (ws : List Bytes) (out : Bytes)
      → (c == b'{') ≡ false
      → length out < buffer_size
      → replace atoi (c ∷ q) ws out ≡ replace atoi q ws (out ++ c ∷ [])
  unfolding replace
  replace-byte c q ws out h fits = rw (h, replace, lt→ltb (length out) buffer_size fits) refl

  replace-end :
      (ws : List Bytes) (out : Bytes) → length out < buffer_size → replace atoi [] ws out ≡ ok out
  unfolding replace
  replace-end ws out h = rw (lt→ltb (length out) buffer_size h) refl

  replace-place :
      (q : Bytes) (ws : List Bytes) (out : Bytes)
      → replace atoi (b'{' ∷ q) ws out ≡ replace_digits atoi q [] ws out
  unfolding replace
  replace-place q ws out = refl

  replace-fill_target :
      (ps : List Piece) (ws : List Bytes) (out : Bytes)
      → WellSpelled b'{' b'}' ps
      → HasIndices atoi ps ws
      → All (λ w. length w < max_num_chars) ws
      → length ws ≤ max_num_variables
      → length out + length (fill_target atoi ps ws) < buffer_size
      → replace atoi (spell b'{' b'}' ps) ws out ≡ ok (out ++ fill_target atoi ps ws)
  replace-fill_target [] ws out sp hi short le fits =
      replace-end ws out (omega arith) ∙ ap ok (sym (append-nil out))
  replace-fill_target (byte c ∷ ps) ws out sp hi short le fits =
      replace-byte c (spell b'{' b'}' ps) ws out sp.0 (omega arith)
      ∙ replace-fill_target ps ws (out ++ c ∷ []) sp.1 hi short le
          (omega (arith, length-snoc out c))
      ∙ ap ok (append_assoc out (c ∷ []) (fill_target atoi ps ws))
  replace-fill_target (place ds ∷ ps) ws out sp hi short le fits =
      let w = word atoi ws (atoi ds) in
      let rest = fill_target atoi ps ws in
      replace-place (ds ++ b'}' ∷ spell b'{' b'}' ps) ws out
      ∙ replace_digits-all atoi ds (spell b'{' b'}' ps) [] ws out (omega (arith, sp.0)) sp.1
      ∙ ap (λ r. r >>= λ o. replace atoi (spell b'{' b'}' ps) ws o)
          (append_row-word ds out ws sp.0 short le hi.0 (omega (arith, length-append w rest)))
      ∙ replace-fill_target ps ws (out ++ w) sp.2 hi.1 short le
          (omega (arith, length-append w rest, length-append out w))
      ∙ ap ok (append_assoc out w rest)

  find_rule-first :
      (text : Bytes) (before after : List Rule) (r : Rule)
      → All (λ q. matches atoi text q.src ≡ ok false) before
      → matches atoi text r.src ≡ ok true
      → find_rule atoi text (before ++ r ∷ after) ≡ ok (some r)
  unfolding find_rule
  find_rule-first text [] after r hb hr = rw hr refl
  find_rule-first text (q ∷ before) after r hb hr =
      rw hb.0 (find_rule-first text before after r hb.1 hr)

convert_string_format-guarded :
    (atoi : Bytes → ℕ) (rules : List Rule) (text more : Bytes)
    → 0 < length text
    → 0 < length rules
    → convert_string_format atoi rules (text ++ more) (length text)
      ≡ (find_rule atoi text rules >>= λ found. apply_rule atoi (text ++ more) text found)
unfolding convert_string_format
convert_string_format-guarded atoi rules text more pos some_rule =
    rw
      (
        lt→ltb 0 (length text) pos,
        lt→ltb 0 (length rules) some_rule,
        le→leb (length text) (length (text ++ more) + 1) (omega (arith, length-append text more)),
      )
      (ap (λ t. find_rule atoi t rules >>= λ found. apply_rule atoi (text ++ more) t found)
        (take-append_length text more))

apply_rule-fill :
    (atoi : Bytes → ℕ) (ps ts : List Piece) (ws : List Bytes) (formed : Bytes)
    → WellSpelled b'%' b's' ps
    → WellSpelled b'{' b'}' ts
    → HasWidths atoi ps ws
    → HasIndices atoi ts ws
    → length ws ≤ max_num_variables
    → length (fill_target atoi ts ws) < buffer_size
    → apply_rule atoi formed
        (fill_source ps ws)
        (some (record { src = spell b'%' b's' ps; dst = spell b'{' b'}' ts }))
      ≡ ok (fill_target atoi ts ws)
unfolding apply_rule
apply_rule-fill atoi ps ts ws formed sp st hw hi le fits =
    ap (λ r. r >>= λ table. replace atoi (spell b'{' b'}' ts) table [])
      (transfer-fill_source atoi ps ws [] sp hw (omega arith))
    ∙ replace-fill_target atoi ts ws [] st hi (HasWidths-short atoi ps ws hw) le (omega arith)

-- A text that is the filled source of a rule, with words of 1 to 8 bytes of the widths that the rule says,
-- at most twelve of them, and that matches no earlier rule, is converted to the filled destination of that
-- rule, if its indices are those of words and the result is shorter than the buffer; what stands behind
-- the given length is not read.
pub convert_string_format-fill :
    (atoi : Bytes → ℕ) (before after : List Rule) (ps ts : List Piece) (ws : List Bytes)
    (more : Bytes)
    → WellSpelled b'%' b's' ps
    → WellSpelled b'{' b'}' ts
    → HasWidths atoi ps ws
    → HasIndices atoi ts ws
    → length ws ≤ max_num_variables
    → 0 < length (fill_source ps ws)
    → length (fill_target atoi ts ws) < buffer_size
    → All (λ q. matches atoi (fill_source ps ws) q.src ≡ ok false) before
    → convert_string_format atoi
        (before ++ record { src = spell b'%' b's' ps; dst = spell b'{' b'}' ts } ∷ after)
        (fill_source ps ws ++ more)
        (length (fill_source ps ws))
      ≡ ok (fill_target atoi ts ws)
convert_string_format-fill atoi before after ps ts ws more sp st hw hi le pos fits hb =
    let text = fill_source ps ws in
    let rule : Rule = record { src = spell b'%' b's' ps; dst = spell b'{' b'}' ts } in
    convert_string_format-guarded atoi (before ++ rule ∷ after) text more pos
      (omega (arith, length-append before (rule ∷ after)))
    ∙ ap (λ f. f >>= λ found. apply_rule atoi (text ++ more) text found)
        (find_rule-first atoi text before after rule hb (matches-fill_source atoi ps ws sp hw))
    ∙ apply_rule-fill atoi ps ts ws (text ++ more) sp st hw hi le fits
