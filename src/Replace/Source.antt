-- ===== src/Replace/Source.antt =====
-- app/xtru/getmeta/cFunctionalReplace.cpp: the source of a rule is found in a text, and its words are read.
use xtru.Common.{
  ◌==◌, lt→ltb, le→leb, ==_refl, Bytes, length, length-append, take-append_length,
  drop-append_length, ◌>>=◌, ok, ℕ, ◌+◌, ◌≤◌, ◌<◌, ◌≡◌, refl, ap, ◌∙◌, true, false, List, [], ◌∷◌,
  ◌++◌, append-nil, append_assoc, arith,
}
use xtru.Replace.Rules.{
  max_digits, max_num_chars, max_num_variables, skip, matches, matches_digits, store, transfer,
  transfer_digits, append_row, replace, replace_digits,
}
use xtru.Replace.Pieces.{Piece, byte, place, spell, Free, WellSpelled, fill_source, HasWidths}

pub length-snoc : (acc : Bytes) (d : ℕ) → length (acc ++ d ∷ []) ≡ length acc + 1
length-snoc acc d = omega (arith, length-append acc (d ∷ []))

module _ (atoi : Bytes → ℕ) where
  matches_digits-all :
      (p ds q acc : Bytes)
      → length acc + length ds < max_digits
      → Free b's' ds
      → matches_digits atoi p (ds ++ b's' ∷ q) acc
        ≡ (skip atoi (acc ++ ds) p >>= λ p'. matches atoi p' q)
  unfolding matches
  matches_digits-all p [] q acc h f = rw (append-nil acc) refl
  matches_digits-all p (d ∷ ds) q acc h f =
      rw (f.0, matches_digits, lt→ltb (length acc) max_digits (omega arith))
        (matches_digits-all p ds q (acc ++ d ∷ []) (omega (arith, length-snoc acc d)) f.1
          ∙ ap (λ a. skip atoi a p >>= λ p'. matches atoi p' q) (append_assoc acc (d ∷ []) ds))

  transfer_digits-all :
      (p ds q acc : Bytes) (table : List Bytes)
      → length acc + length ds < max_digits
      → Free b's' ds
      → transfer_digits atoi p (ds ++ b's' ∷ q) acc table
        ≡ (store atoi (acc ++ ds) p table >>= λ r. transfer atoi r.0 q r.1)
  unfolding transfer
  transfer_digits-all p [] q acc table h f = rw (append-nil acc) refl
  transfer_digits-all p (d ∷ ds) q acc table h f =
      rw (f.0, transfer_digits, lt→ltb (length acc) max_digits (omega arith))
        (transfer_digits-all p ds q (acc ++ d ∷ []) table (omega (arith, length-snoc acc d)) f.1
          ∙ ap (λ a. store atoi a p table >>= λ r. transfer atoi r.0 q r.1)
              (append_assoc acc (d ∷ []) ds))

  pub replace_digits-all :
      (ds q acc : Bytes) (table : List Bytes) (out : Bytes)
      → length acc + length ds < max_digits
      → Free b'}' ds
      → replace_digits atoi (ds ++ b'}' ∷ q) acc table out
        ≡ (append_row atoi (acc ++ ds) table out >>= λ out'. replace atoi q table out')
  unfolding replace
  replace_digits-all [] q acc table out h f = rw (append-nil acc) refl
  replace_digits-all (d ∷ ds) q acc table out h f =
      rw (f.0, replace_digits, lt→ltb (length acc) max_digits (omega arith))
        (replace_digits-all ds q (acc ++ d ∷ []) table out (omega (arith, length-snoc acc d)) f.1
          ∙ ap (λ a. append_row atoi a table out >>= λ o. replace atoi q table o)
              (append_assoc acc (d ∷ []) ds))

  skip-word :
      (ds w rest : Bytes)
      → length ds < max_digits
      → atoi ds ≡ length w
      → skip atoi ds (w ++ rest) ≡ ok rest
  skip-word ds w rest h e =
      rw
        (
          lt→ltb (length ds) max_digits h,
          e,
          le→leb (length w) (length (w ++ rest)) (omega (arith, length-append w rest)),
          drop-append_length w rest,
        )
        refl

  store-word :
      (ds w rest : Bytes) (table : List Bytes)
      → length ds < max_digits
      → atoi ds ≡ length w
      → length w < max_num_chars
      → length table < max_num_variables
      → store atoi ds (w ++ rest) table ≡ ok (rest, table ++ w ∷ [])
  unfolding store
  store-word ds w rest table h e hw ht =
      rw
        (
          lt→ltb (length ds) max_digits h,
          e,
          le→leb (length w) (length (w ++ rest)) (omega (arith, length-append w rest)),
          le→leb (length table) max_num_variables (omega arith),
          lt→ltb (length table) max_num_variables ht,
          le→leb (length w) max_num_chars (omega arith),
          drop-append_length w rest,
          take-append_length w rest,
        )
        refl

  -- The head of a text that begins with a word of at least one byte.
  matches_place :
      (w rest q : Bytes)
      → 0 < length w
      → matches atoi (w ++ rest) (b'%' ∷ q) ≡ matches_digits atoi (w ++ rest) q []
  unfolding matches
  matches_place [] rest q h = absurd (omega arith)
  matches_place (c ∷ w) rest q h = refl

  transfer_place :
      (w rest q : Bytes) (table : List Bytes)
      → 0 < length w
      → transfer atoi (w ++ rest) (b'%' ∷ q) table ≡ transfer_digits atoi (w ++ rest) q [] table
  unfolding transfer
  transfer_place [] rest q table h = absurd (omega arith)
  transfer_place (c ∷ w) rest q table h = refl

  matches-same :
      (c : ℕ) (p q : Bytes) → (c == b'%') ≡ false → matches atoi (c ∷ p) (c ∷ q) ≡ matches atoi p q
  unfolding matches
  matches-same c p q h = rw (h, matches, ==_refl c) refl

  pub matches-fill_source :
      (ps : List Piece) (ws : List Bytes)
      → WellSpelled b'%' b's' ps
      → HasWidths atoi ps ws
      → matches atoi (fill_source ps ws) (spell b'%' b's' ps) ≡ ok true
  matches-fill_source [] ws sp hw = unfold matches in refl
  matches-fill_source (byte c ∷ ps) ws sp hw =
      matches-same c (fill_source ps ws) (spell b'%' b's' ps) sp.0
      ∙ matches-fill_source ps ws sp.1 hw
  matches-fill_source (place ds ∷ ps) [] sp hw = absurd hw
  matches-fill_source (place ds ∷ ps) (w ∷ ws) sp hw =
      let rest = fill_source ps ws in
      matches_place w rest (ds ++ b's' ∷ spell b'%' b's' ps) hw.1
      ∙ matches_digits-all (w ++ rest) ds (spell b'%' b's' ps) [] (omega (arith, sp.0)) sp.1
      ∙ ap (λ r. r >>= λ p'. matches atoi p' (spell b'%' b's' ps)) (skip-word ds w rest sp.0 hw.0)
      ∙ matches-fill_source ps ws sp.2 hw.3

  transfer-same :
      (c : ℕ) (p q : Bytes) (table : List Bytes)
      → (c == b'%') ≡ false
      → transfer atoi (c ∷ p) (c ∷ q) table ≡ transfer atoi p q table
  unfolding transfer
  transfer-same c p q table h = rw (h, transfer) refl

  pub transfer-fill_source :
      (ps : List Piece) (ws table : List Bytes)
      → WellSpelled b'%' b's' ps
      → HasWidths atoi ps ws
      → length table + length ws ≤ max_num_variables
      → transfer atoi (fill_source ps ws) (spell b'%' b's' ps) table ≡ ok (table ++ ws)
  transfer-fill_source [] [] table sp hw le = unfold transfer in rw (append-nil table) refl
  transfer-fill_source [] (w ∷ ws) table sp hw le = absurd (omega (arith, hw))
  transfer-fill_source (byte c ∷ ps) ws table sp hw le =
      transfer-same c (fill_source ps ws) (spell b'%' b's' ps) table sp.0
      ∙ transfer-fill_source ps ws table sp.1 hw le
  transfer-fill_source (place ds ∷ ps) [] table sp hw le = absurd hw
  transfer-fill_source (place ds ∷ ps) (w ∷ ws) table sp hw le =
      let rest = fill_source ps ws in
      let q = spell b'%' b's' ps in
      transfer_place w rest (ds ++ b's' ∷ q) table hw.1
      ∙ transfer_digits-all (w ++ rest) ds q [] table (omega (arith, sp.0)) sp.1
      ∙ ap (λ r. r >>= λ s. transfer atoi s.0 q s.1)
          (store-word ds w rest table sp.0 hw.0 hw.2 (omega arith))
      ∙ transfer-fill_source ps ws (table ++ w ∷ []) sp.2 hw.3
          (omega (arith, length-append table (w ∷ [])))
      ∙ ap ok (append_assoc table (w ∷ []) ws)
