-- ===== src/Format/Layout.antt =====
-- inc/sql/formatter/cDirector.h: `oConvert` keeps the text.
use native.Mathlib.Nat.{suc-add}
use xtru.Common.{
  if◌then◌else◌, le→leb, Bytes, length, take, drop, concat, take-append-drop, length-take,
  length-drop, ok, is_empty, ℕ, zero, suc, ◌+◌, ◌-◌, ◌≤◌, ◌≡◌, refl, sym, ap, ◌∙◌, List, [], ◌∷◌,
  ◌++◌, append-nil, append_assoc, arith,
}
use xtru.Format.Director.{ℤ, pos, LinePos, add_indent, next_nl, indentation, convert_loop, convert}

-- A text in pieces, with a line feed and an indentation behind each piece but the last.
abbrev pub layout : Bytes → ℤ → List LinePos → List Bytes → Bytes
layout indent_str level [] ps = concat ps
layout indent_str level (l ∷ ls) [] = []
layout indent_str level (l ∷ ls) (p ∷ ps) =
    let deeper = add_indent l.token_class level in
    p ++ (10 ∷ (indentation indent_str deeper ++ layout indent_str deeper ls ps))

-- Each piece ends where its line feed is to stand.
abbrev pub Placed : ℕ → List LinePos → List Bytes → Type 0
Placed head [] ps = Unit
Placed head (l ∷ ls) [] = ⊥
Placed head (l ∷ ls) (p ∷ ps) = (head + length p ≡ next_nl l) × Placed (next_nl l) ls ps

-- The places ascend, and none lies behind the end.
abbrev pub Ascending : Bytes → ℕ → List LinePos → Type 0
Ascending text head [] = head ≤ length text
Ascending text head (l ∷ ls) = (head ≤ next_nl l) × Ascending text (next_nl l) ls

drop-drop : (m n : ℕ) (s : Bytes) → drop n (drop m s) ≡ drop (m + n) s
drop-drop zero n s = ap (λ k. drop k s) (omega arith)
drop-drop (suc m) zero [] = rw suc-add refl
drop-drop (suc m) (suc n) [] = rw suc-add refl
drop-drop (suc m) n (c ∷ s) = rw suc-add (drop-drop m n s)

module _ (indent_str text : Bytes) where
  within : (head : ℕ) (ls : List LinePos) → Ascending text head ls → head ≤ length text
  within head [] h = h
  within head (l ∷ ls) h = omega (arith, h.0, within (next_nl l) ls h.1)

  piece : ℕ → ℕ → Bytes
  piece head tail = take (tail - head) (drop head text)

  length-piece :
      (head tail : ℕ) → head ≤ tail → tail ≤ length text → head + length (piece head tail) ≡ tail
  unfolding piece
  length-piece head tail h k =
      omega (arith, length-take (tail - head) (drop head text), length-drop head text)

  piece-append : (head tail : ℕ) → head ≤ tail → piece head tail ++ drop tail text ≡ drop head text
  unfolding piece
  piece-append head tail h =
      let e : drop (tail - head) (drop head text) ≡ drop tail text =
        drop-drop head (tail - head) text ∙ ap (λ k. drop k text) (omega arith) in
      rw (← e) (take-append-drop (tail - head) (drop head text))

  convert_loop-layout :
      (head : ℕ) (level : ℤ) (ls : List LinePos)
      → Ascending text head ls
      → (r : Bytes × ℕ) × (ps : List Bytes) × (convert_loop indent_str text head level ls ≡ ok r)
        × (r.0 ++ drop r.1 text ≡ layout indent_str level ls ps)
        × (concat ps ≡ drop head text)
        × Placed head ls ps
  unfolding convert_loop piece
  convert_loop-layout head level [] h = (
    ([], head),
    drop head text ∷ [],
    refl,
    sym (append-nil (drop head text)),
    append-nil (drop head text),
    tt,
  )
  convert_loop-layout head level (l ∷ ls) h =
      let tail = next_nl l in
      let deeper = add_indent l.token_class level in
      let (r, ps, e, f, g, k) = convert_loop-layout tail deeper ls h.1 in
      let inside : tail ≤ length text = within tail ls h.1 in
      let p = piece head tail in
      let break = indentation indent_str deeper in
      (
        (p ++ (10 ∷ (break ++ r.0)), r.1),
        p ∷ ps,
        rw (le→leb tail (length text) inside, le→leb head tail h.0, e) refl,
        append_assoc p (10 ∷ (break ++ r.0)) (drop r.1 text)
            ∙ ap (λ z. p ++ (10 ∷ z))
                (append_assoc break r.0 (drop r.1 text) ∙ ap (λ z. break ++ z) f),
        ap (λ z. p ++ z) g ∙ piece-append head tail h.0,
        (length-piece head tail h.0 inside, k),
      )

whole_text :
    (r : Bytes) (n : ℕ) (text : Bytes)
    → (if is_empty text then r else r ++ drop n text) ≡ r ++ drop n text
whole_text r zero [] = sym (append-nil r)
whole_text r (suc n) [] = sym (append-nil r)
whole_text r n (c ∷ text) = refl

-- If the places at which the tokens want their line feeds ascend and none lies behind the end of the
-- text, then `oConvert` returns the text with a line feed and an indentation put in at each of these
-- places, and with nothing else changed: it consists of pieces that together are the text, each of which
-- ends at the place of its token, and the indentation grows and shrinks with the tokens. The place is
-- before a keyword, a plain delimiter and one that decreases the indentation, and behind one that
-- increases it.
pub convert-layout :
    (indent_str text : Bytes) (ls : List LinePos)
    → Ascending text 0 ls
    → (ps : List Bytes) × (concat ps ≡ text)
      × Placed 0 ls ps
      × (convert indent_str text ls ≡ ok (layout indent_str (pos 0) ls ps))
unfolding convert
convert-layout indent_str text ls h =
    let (r, ps, e, f, g, k) = convert_loop-layout indent_str text 0 (pos 0) ls h in
    (ps, g, k, rw e (ap ok (whole_text r.0 r.1 text ∙ f)))
