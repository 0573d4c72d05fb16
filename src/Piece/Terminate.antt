-- ===== src/Piece/Terminate.antt =====
-- lib/sql/occi/cPieceVct.cpp: the end mark of a value that was fetched piece by piece.
use xtru.Common.{
  ltb, if◌then◌else◌, Bytes, length, take, concat, ◌>>=◌, fault, ok, err, ℕ, zero, suc, ◌*◌, ◌^◌,
  ◌≤◌, ◌<◌, ◌≡◌, refl, sym, ap, ◌∙◌, subst, some, List, [], ◌∷◌, ◌++◌, map, arith,
}
use xtru.Piece.Callback.{
  Buffer, Row, PieceVct, set_row, put_at, add_length, terminate_latest, terminate_previous,
  fetch_value,
}
use xtru.Piece.Fetch.{Stores, Pieces, Reading, set_row-same, add_length_small, value-Reading}

put_at-inside :
    (i c : ℕ) (buf : Buffer)
    → i < length buf
    → (buf' : Buffer) × (put_at i c buf ≡ ok buf') × (take (suc i) buf' ≡ take i buf ++ some c ∷ [])
put_at-inside i c [] h = absurd (omega arith)
put_at-inside zero c (b ∷ buf) h = (some c ∷ buf, refl, refl)
put_at-inside (suc i) c (b ∷ buf) h =
    let (buf', e, t) = put_at-inside i c buf (omega arith) in
    (b ∷ buf', ap (λ m. m >>= λ r. ok (b ∷ r)) e, ap (◌∷◌ b) t)

put_at-outside : (i c : ℕ) (buf : Buffer) → length buf ≤ i → put_at i c buf ≡ err fault
put_at-outside i c [] h = refl
put_at-outside zero c (b ∷ buf) h = absurd (omega arith)
put_at-outside (suc i) c (b ∷ buf) h =
    ap (λ m. m >>= λ r. ok (b ∷ r)) (put_at-outside i c buf (omega arith))

-- The row that holds the text, its length and an end mark, and the greatest length so far.
abbrev pub HasText : ℕ → Bytes → PieceVct → Type 0
HasText iter text s =
    (buf : Buffer) × ((s.rows iter).data_addr ≡ some buf)
    × ((s.rows iter).len ≡ length text)
    × (take (suc (length text)) buf ≡ map some text ++ some 0 ∷ [])
    × (length text ≤ s.longest)

after_end : ℕ → Buffer → PieceVct → PieceVct
after_end iter buf s =
    let l = add_length (s.rows iter).len s.actual in
    record (set_row iter (record { data_addr = some buf; len = l }) s) {
      longest = if ltb s.longest l then l else s.longest;
    }

terminate_latest-after_end :
    (iter : ℕ) (buf : Buffer) (s : PieceVct)
    → (s.rows iter).data_addr ≡ some buf
    → terminate_latest (suc iter) s
      ≡ (put_at (add_length (s.rows iter).len s.actual) 0 buf >>= λ b. ok (after_end iter b s))
unfolding terminate_latest after_end
terminate_latest-after_end iter buf s h = rw h refl

new_longest : (a b : ℕ) → b ≤ (if ltb a b then b else a)
new_longest a b = ground arith

terminated-HasText :
    (iter n : ℕ) (text : Bytes) (s : PieceVct)
    → Reading iter n text s
    → length text < s.pcs_len * n
    → s.pcs_len * n < 2 ^ 31
    → (s' : PieceVct) × (terminate_latest (suc iter) s ≡ ok s') × HasText iter text s'
unfolding after_end
terminated-HasText iter n text s (buf, hd, hb, hn, hl, ht) short small =
    let l = add_length (s.rows iter).len s.actual in
    let el : l ≡ length text =
      add_length_small (s.rows iter).len s.actual (omega (arith, hl)) ∙ hl in
    let (buf', put, there) = put_at-inside (length text) 0 buf (omega (arith, hb)) in
    let row : Row = record { data_addr = some buf'; len = l } in
    (
      after_end iter buf' s,
      terminate_latest-after_end iter buf s hd
          ∙ ap (λ k. put_at k 0 buf >>= λ b. ok (after_end iter b s)) el
          ∙ ap (λ m. m >>= λ b. ok (after_end iter b s)) put,
      (
        buf',
        ap (λ r. r.data_addr) (set_row-same iter row s),
        ap (λ r. r.len) (set_row-same iter row s) ∙ el,
        there ∙ ap (λ b. b ++ some 0 ∷ []) ht,
        omega (arith, new_longest s.longest l, el),
      ),
    )

terminated_full :
    (iter n : ℕ) (text : Bytes) (s : PieceVct)
    → Reading iter n text s
    → length text ≡ s.pcs_len * n
    → s.pcs_len * n < 2 ^ 31
    → terminate_latest (suc iter) s ≡ err fault
terminated_full iter n text s (buf, hd, hb, hn, hl, ht) full small =
    let l = add_length (s.rows iter).len s.actual in
    let el : l ≡ length text =
      add_length_small (s.rows iter).len s.actual (omega (arith, hl, full)) ∙ hl in
    terminate_latest-after_end iter buf s hd
    ∙ ap (λ m. m >>= λ b. ok (after_end iter b s))
        (put_at-outside l 0 buf (omega (arith, el, hb, full)))

-- Let OCI store the bytes of each piece at the place that it is given. A value of which every piece but the
-- last has the maximum length and the last one is shorter than that, and whose buffer has less than 2^31
-- bytes, is fetched, once the row before it is terminated, and then terminated without a fault: its row
-- holds the pieces in order, an end mark and the length, and the greatest length is at least that.
pub fetch_value-HasText :
    (deliver : Buffer → ℕ → Bytes → Buffer)
    → Stores deliver
    → (iter : ℕ) (c : Bytes) (cs : List Bytes) (s s0 : PieceVct) → terminate_previous iter s ≡ ok s0
    → Pieces s0.pcs_len c cs
    → s0.pcs_len * suc (length cs) < 2 ^ 31
    → length (c ++ concat cs) < s0.pcs_len * suc (length cs)
    → (s' : PieceVct) × ((fetch_value deliver iter c cs s >>= terminate_latest (suc iter)) ≡ ok s')
      × HasText iter (c ++ concat cs) s'
fetch_value-HasText deliver stores iter c cs s s0 h pieces small short =
    let n = suc (length cs) in
    let (s1, e1, r1, p1) = value-Reading deliver stores iter c cs s s0 h pieces small in
    let (s2, e2, t2) =
      terminated-HasText iter n (c ++ concat cs) s1 r1
        (subst (λ k. length (c ++ concat cs) < k * n) (sym p1) short)
        (subst (λ k. k * n < 2 ^ 31) (sym p1) small) in
    (s2, ap (λ m. m >>= terminate_latest (suc iter)) e1 ∙ e2, t2)

-- Under the same conditions, but with a last piece of the maximum length too, the end mark is written
-- behind the end of the buffer.
pub fetch_value-overrun :
    (deliver : Buffer → ℕ → Bytes → Buffer)
    → Stores deliver
    → (iter : ℕ) (c : Bytes) (cs : List Bytes) (s s0 : PieceVct) → terminate_previous iter s ≡ ok s0
    → Pieces s0.pcs_len c cs
    → s0.pcs_len * suc (length cs) < 2 ^ 31
    → length (c ++ concat cs) ≡ s0.pcs_len * suc (length cs)
    → (fetch_value deliver iter c cs s >>= terminate_latest (suc iter)) ≡ err fault
fetch_value-overrun deliver stores iter c cs s s0 h pieces small full =
    let n = suc (length cs) in
    let (s1, e1, r1, p1) = value-Reading deliver stores iter c cs s s0 h pieces small in
    ap (λ m. m >>= terminate_latest (suc iter)) e1
    ∙ terminated_full iter n (c ++ concat cs) s1 r1 (full ∙ ap (λ k. k * n) (sym p1))
        (subst (λ k. k * n < 2 ^ 31) (sym p1) small)
