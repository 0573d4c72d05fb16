-- ===== src/Delimiter/Agree.antt =====
-- What a delimiter of the configuration means, and that the data file and the control file agree on it.
use xtru.Common.{
  Bool-cases, Option-cases, Bytes, length, concat, All, is_none, ℕ, ◌≡◌, refl, ap, ◌≢◌, inl, inr,
  true, false, some, List, [], ◌∷◌, ◌++◌, map, arith,
}
use xtru.Delimiter.Tokens.{literal_scanner_tokens, literal_scanner_total}
use xtru.Delimiter.Literal.{
  Searcher, Target, to_data, to_ctrl, data_escaped, ctrl_escaped, is_xdigit, data_hexdecm,
  ctrl_hexdecm, quoted_hex, quoted, conv_literal, Finds, IsEscape, IsHexByte,
}
use xtru.Delimiter.Forms.{
  Escape, Form, new_line, return_, tab, empty, plain, escapes, hexes, escape_token, hex_token,
  spell, meaning, IsHexPair, HasNo, IsForm, read_ctrl, read_ctrl-quoted, read_ctrl-escapes,
  read_ctrl-hexes, data_hexes, data_escapes,
}

module _ (P : Bytes → Type 0) (search : Searcher) (spec : Finds P search) where
  found : (m rest : Bytes) → P m → is_none (search (m ++ rest)) ≡ false
  found m rest p = elim (Option-cases (search (m ++ rest))) [
    | inl e ↦ absurd (spec.miss _ e [] m rest refl p)
    | inr (cut, e) ↦ rw e refl
  ]

  not_found : (s : Bytes) → HasNo P s → is_none (search s) ≡ true
  not_found s h = elim (Option-cases (search s)) [
    | inl e ↦ rw e refl
    | inr (cut, e) ↦
        let (whole, p) = spec.hit s cut.0 cut.1 cut.2 e in absurd (h cut.0 cut.1 cut.2 whole p)
  ]

All-back {ℓ} : {A : Type ℓ} (P : A → Type 0) (xs ys : List A) → All P (xs ++ ys) → All P ys
All-back P [] ys h = h
All-back P (x ∷ xs) ys h = All-back P xs ys h.1

no-IsEscape : (s : Bytes) → All (λ c. c ≢ b'\\') s → HasNo IsEscape s
no-IsEscape s h l m r e (c, em, t) =
    (All-back (λ x. x ≢ b'\\') l (b'\\' ∷ c ∷ r) (rw (e, em) at h)).0 refl

hexes-All :
    (hs : List (ℕ × ℕ)) → All IsHexPair hs → All (λ c. c ≢ b'\\') (concat (map hex_token hs))
unfolding is_xdigit
hexes-All [] w = tt
hexes-All ((a, b) ∷ hs) ((ha, hb), w) =
    (omega arith, (omega arith, (ground arith, (ground arith, hexes-All hs w))))

escapes-All : (es : List Escape) → All IsEscape (map escape_token es)
escapes-All [] = tt
escapes-All (new_line ∷ es) = ((b'n', refl, refl), escapes-All es)
escapes-All (return_ ∷ es) = ((b'r', refl, refl), escapes-All es)
escapes-All (tab ∷ es) = ((b't', refl, refl), escapes-All es)
escapes-All (empty ∷ es) = ((b'0', refl, refl), escapes-All es)

hexes-IsHexByte : (hs : List (ℕ × ℕ)) → All IsHexPair hs → All IsHexByte (map hex_token hs)
hexes-IsHexByte [] w = tt
hexes-IsHexByte ((a, b) ∷ hs) ((ha, hb), w) = ((a, b, refl, ha, hb), hexes-IsHexByte hs w)

IsEscape-width : (m : Bytes) → IsEscape m → length m ≡ 2
IsEscape-width m (c, e, t) = rw e refl

IsHexByte-width : (m : Bytes) → IsHexByte m → length m ≡ 4
IsHexByte-width m (a, b, e, h, k) = rw e refl

-- The delimiter reads the same in both files.
abbrev pub Agrees : Searcher → Searcher → Form → Type 0
Agrees escaped hexdecm f =
    (conv_literal escaped hexdecm to_data (spell f) ≡ some (meaning f))
    × ((c : Bytes) × (conv_literal escaped hexdecm to_ctrl (spell f) ≡ some c)
        × (read_ctrl c ≡ some (meaning f)))

module _ (escaped hexdecm : Searcher) (es_spec : Finds IsEscape escaped)
    (hx_spec : Finds IsHexByte hexdecm) where
  Agrees-plain : (s : Bytes) → IsForm (plain s) → Agrees escaped hexdecm (plain s)
  unfolding conv_literal
  Agrees-plain s (ne, nh, nq) =
      let e = not_found IsEscape escaped es_spec s ne in
      let h = not_found IsHexByte hexdecm hx_spec s nh in
      (rw (e, h) refl, (quoted s, rw (e, h) refl, read_ctrl-quoted s nq))

  Agrees-escapes : (es : List Escape) → IsForm (escapes es) → Agrees escaped hexdecm (escapes es)
  unfolding conv_literal
  Agrees-escapes [] h = absurd (omega arith)
  Agrees-escapes (x ∷ es) h =
      let ms = map escape_token (x ∷ es) in
      let w = escapes-All (x ∷ es) in
      let e = found IsEscape escaped es_spec (escape_token x) (concat (map escape_token es)) w.0 in
      let scan_to = λ (emit : Bytes → Bytes).
        literal_scanner_tokens IsEscape escaped 2 es_spec IsEscape-width (omega arith) emit ms w in
      (
        rw (e, scan_to data_escaped) (ap some (data_escapes (x ∷ es))),
        (
          quoted_hex (concat (map ctrl_escaped ms)),
          rw (e, scan_to ctrl_escaped) refl,
          read_ctrl-escapes (x ∷ es),
        ),
      )

  Agrees-hexes : (hs : List (ℕ × ℕ)) → IsForm (hexes hs) → Agrees escaped hexdecm (hexes hs)
  unfolding conv_literal
  Agrees-hexes [] (h, w) = absurd (omega arith)
  Agrees-hexes (x ∷ hs) (h, w) =
      let ms = map hex_token (x ∷ hs) in
      let ws = hexes-IsHexByte (x ∷ hs) w in
      let n =
        not_found IsEscape escaped es_spec (concat ms)
          (no-IsEscape (concat ms) (hexes-All (x ∷ hs) w)) in
      let e = found IsHexByte hexdecm hx_spec (hex_token x) (concat (map hex_token hs)) ws.0 in
      let scan_to = λ (emit : Bytes → Bytes).
        literal_scanner_tokens IsHexByte hexdecm 4 hx_spec IsHexByte-width (omega arith) emit ms
          ws in
      (
        rw (n, e, scan_to data_hexdecm) (ap some (data_hexes (x ∷ hs) w)),
        (
          quoted_hex (concat (map ctrl_hexdecm ms)),
          rw (n, e, scan_to ctrl_hexdecm) refl,
          read_ctrl-hexes (x ∷ hs) w,
        ),
      )

  -- A delimiter that is a plain text without a quotation mark, a row of C escapes or a row of hexadecimal
  -- bytes is written to the data file as the bytes it stands for, and to the control file as a literal
  -- that a reader of literals, which takes two quotation marks for one, reads as the same bytes. (A text
  -- that mixes the forms is outside of this.)
  pub conv_literal-Agrees : (f : Form) → IsForm f → Agrees escaped hexdecm f
  conv_literal-Agrees (plain s) h = Agrees-plain s h
  conv_literal-Agrees (escapes es) h = Agrees-escapes es h
  conv_literal-Agrees (hexes hs) h = Agrees-hexes hs h

  -- The conversion of every text ends with a result, for both files.
  pub conv_literal_total :
      (t : Target) (s : Bytes) → (out : Bytes) × (conv_literal escaped hexdecm t s ≡ some out)
  unfolding conv_literal
  conv_literal_total to_data s =
      let (a, p) =
        literal_scanner_total IsEscape escaped 2 es_spec IsEscape-width (omega arith) data_escaped
          s in
      let (b, q) =
        literal_scanner_total IsHexByte hexdecm 4 hx_spec IsHexByte-width (omega arith) data_hexdecm
          s in
      elim (Bool-cases (is_none (escaped s))) [
        | inr e ↦ (a, rw e p)
        | inl e ↦ elim (Bool-cases (is_none (hexdecm s))) [
          | inr h ↦ (b, rw (e, h) q)
          | inl h ↦ (s, rw (e, h) refl)
        ]
      ]
  conv_literal_total to_ctrl s =
      let (a, p) =
        literal_scanner_total IsEscape escaped 2 es_spec IsEscape-width (omega arith) ctrl_escaped
          s in
      let (b, q) =
        literal_scanner_total IsHexByte hexdecm 4 hx_spec IsHexByte-width (omega arith) ctrl_hexdecm
          s in
      elim (Bool-cases (is_none (escaped s))) [
        | inr e ↦ (quoted_hex a, rw (e, p) refl)
        | inl e ↦ elim (Bool-cases (is_none (hexdecm s))) [
          | inr h ↦ (quoted_hex b, rw (e, h, q) refl)
          | inl h ↦ (quoted s, rw (e, h) refl)
        ]
      ]
