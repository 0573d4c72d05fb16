-- ===== src/Delimiter/Tokens.antt =====
-- `sCliteralScanner` on a text that is a row of matches, and on any text: it ends within its fuel.
use xtru.Common.{
  Option-cases, Bytes, length, concat, All, length-append, ℕ, zero, suc, ◌+◌, ◌≤◌, ◌<◌, ◌≡◌, refl,
  sym, ap, ◌∙◌, inl, inr, Option, none, some, List, [], ◌∷◌, ◌++◌, map, append-nil, append_assoc,
  arith,
}
use xtru.Delimiter.Literal.{Searcher, Finds, scan, literal_scanner}

-- A prefix of known length is determined by the whole.
prefix_eq : (m m' r r' : Bytes) → m ++ r ≡ m' ++ r' → length m ≡ length m' → (m ≡ m') × (r ≡ r')
prefix_eq [] [] r r' e h = (refl, e)
prefix_eq [] (x ∷ m') r r' e h = absurd (omega arith)
prefix_eq (x ∷ m) [] r r' e h = absurd (omega arith)
prefix_eq (x ∷ m) (y ∷ m') r r' e h = let (p, q) = prefix_eq m m' r r' (cc) (omega arith) in (cc, q)

nil_of_length : (s : Bytes) → length s ≤ 0 → s ≡ []
nil_of_length [] h = refl
nil_of_length (x ∷ s) h = absurd (omega arith)

module _ (P : Bytes → Type 0) (search : Searcher) (width : ℕ) (spec : Finds P search)
    (P-width : (m : Bytes) → P m → length m ≡ width) (width_pos : 0 < width) where
  -- A match at the head of the text is what the search finds.
  search_head : (m rest : Bytes) → P m → search (m ++ rest) ≡ some ([], m, rest)
  search_head m rest p = go (search (m ++ rest)) refl
    where
      go : (o : Option (Bytes × Bytes × Bytes)) → search (m ++ rest) ≡ o → o ≡ some ([], m, rest)
      go none e = absurd (spec.miss _ e [] m rest refl p)
      go (some (pre, m', post)) e =
          let front : pre ≡ [] =
            nil_of_length pre (spec.leftmost _ pre m' post e [] m rest refl p) in
          let (whole, p') = spec.hit _ pre m' post e in
          let (em, er) =
            prefix_eq m m' rest post (rw front at whole)
              (omega (arith, P-width m p, P-width m' p')) in
          cc

  scan_tokens :
      (emit : Bytes → Bytes) (ms : List Bytes) (f : ℕ) (dst : Bytes)
      → All P ms
      → length ms < f
      → scan search emit f dst (concat ms) ≡ some (dst ++ concat (map emit ms))
  unfolding scan
  scan_tokens emit ms zero dst ps h = absurd (omega arith)
  scan_tokens emit [] (suc f) dst ps h = ap some (sym (append-nil dst))
  scan_tokens emit ([] ∷ ms) (suc f) dst (p, ps) h = absurd (omega (arith, P-width [] p))
  scan_tokens emit ((c ∷ m) ∷ ms) (suc f) dst (p, ps) h =
      rw (search_head (c ∷ m) (concat ms) p, scan)
        (scan_tokens emit ms f (dst ++ emit (c ∷ m)) ps (omega arith)
          ∙ ap some (append_assoc dst (emit (c ∷ m)) _))

  length-concat-le : (ms : List Bytes) → All P ms → length ms ≤ length (concat ms)
  length-concat-le [] ps = omega arith
  length-concat-le (m ∷ ms) (p, ps) =
      omega (arith, P-width m p, length-concat-le ms ps, length-append m (concat ms))

  -- A row of matches is replaced match by match.
  pub literal_scanner_tokens :
      (emit : Bytes → Bytes) (ms : List Bytes)
      → All P ms
      → literal_scanner search emit (concat ms) ≡ some (concat (map emit ms))
  unfolding literal_scanner
  literal_scanner_tokens emit ms ps =
      scan_tokens emit ms (length (concat ms) + 1) [] ps (omega (arith, length-concat-le ms ps))

  post_shorter :
      (s pre m post : Bytes) (f : ℕ)
      → search s ≡ some (pre, m, post)
      → length s < suc f
      → length post < f
  post_shorter s pre m post f e h =
      let (whole, p) = spec.hit s pre m post e in
      omega
        (arith, ap length whole, length-append pre (m ++ post), length-append m post, P-width m p)

  scan_total :
      (emit : Bytes → Bytes) (f : ℕ) (dst s : Bytes)
      → length s < f
      → (out : Bytes) × (scan search emit f dst s ≡ some out)
  unfolding scan
  scan_total emit zero dst s h = absurd (omega arith)
  scan_total emit (suc f) dst [] h = (dst, refl)
  scan_total emit (suc f) dst (c ∷ s) h = elim (Option-cases (search (c ∷ s))) [
    | inl e ↦ (dst ++ c ∷ s, rw (e, scan) refl)
    | inr (cut, e) ↦
        let shorter : length cut.2 < f = post_shorter (c ∷ s) cut.0 cut.1 cut.2 f e h in
        let (out, q) = scan_total emit f (dst ++ (cut.0 ++ emit cut.1)) cut.2 shorter in
        (out, rw (e, scan) q)
  ]

  -- The loop ends within its fuel on every text.
  pub literal_scanner_total :
      (emit : Bytes → Bytes) (s : Bytes)
      → (out : Bytes) × (literal_scanner search emit s ≡ some out)
  unfolding literal_scanner
  literal_scanner_total emit s = scan_total emit (length s + 1) [] s (omega arith)
