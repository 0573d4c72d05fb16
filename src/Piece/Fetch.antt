-- ===== src/Piece/Fetch.antt =====
-- lib/sql/occi/cPieceVct.cpp: a value that is fetched piece by piece is put together.
use xtru.Common.{
  lt→ltb, le→leb, ==_refl, Bytes, length, take, replicate, concat, length-append, length-replicate,
  length-take, take-append_length, Result, ◌>>=◌, ok, err, ℕ, suc, ◌+◌, ◌*◌, ◌^◌, ◌≤◌, ◌<◌, ◌≡◌,
  refl, sym, ap, ◌∙◌, subst, Option, none, some, List, [], ◌∷◌, ◌++◌, map, append-nil, append_assoc,
  arith,
}
use xtru.Piece.Callback.{
  Buffer, Row, PieceVct, set_row, add_length, terminate_previous, begin_value, continue_value,
  cbk_func, store_piece, fetch_rest, fetch_value,
}

-- What OCI documents: the bytes stand in the buffer behind what was there.
abbrev pub Stores : (Buffer → ℕ → Bytes → Buffer) → Type 0
Stores deliver =
    (buf : Buffer) (off : ℕ) (bytes : Bytes)
    → off + length bytes ≤ length buf
    → (length (deliver buf off bytes) ≡ length buf)
      × (take (off + length bytes) (deliver buf off bytes) ≡ take off buf ++ map some bytes)

-- Every piece but the last one has the greatest length.
abbrev pub Pieces : ℕ → Bytes → List Bytes → Type 0
Pieces l c [] = length c ≤ l
Pieces l c (d ∷ cs) = (length c ≡ l) × Pieces l d cs

-- `text` was read for row `iter`, in `n` pieces.
abbrev pub Reading : ℕ → ℕ → Bytes → PieceVct → Type 0
Reading iter n text s =
    (buf : Buffer) × ((s.rows iter).data_addr ≡ some buf)
    × (length buf ≡ s.pcs_len * n)
    × (s.num_pcs ≡ n)
    × ((s.rows iter).len + s.actual ≡ length text)
    × (take (length text) buf ≡ map some text)

pub set_row-same : (i : ℕ) (r : Row) (s : PieceVct) → (set_row i r s).rows i ≡ r
set_row-same i r s = rw (==_refl i) refl

map-append :
    (s t : Bytes)
    → map (λ c. Option.some c) (s ++ t) ≡ map (λ c. Option.some c) s ++ map (λ c. Option.some c) t
map-append [] t = refl
map-append (c ∷ s) t = ap (◌∷◌ (some c)) (map-append s t)

take_all : (buf : Buffer) → take (length buf) buf ≡ buf
take_all [] = refl
take_all (b ∷ buf) = ap (◌∷◌ b) (take_all buf)

pub add_length_small : (a b : ℕ) → a + b < 2 ^ 31 → add_length a b ≡ a + b
add_length_small a b h = omega arith

bind_assoc {ℓ κ μ} :
    {A : Type ℓ} {B : Type κ} {C : Type μ} (m : Result A) (f : A → Result B) (g : B → Result C)
    → (m >>= λ a. f a >>= g) ≡ ((m >>= f) >>= g)
bind_assoc (ok a) f g = refl
bind_assoc (err e) f g = refl

Pieces-le : (l : ℕ) (c : Bytes) (cs : List Bytes) → Pieces l c cs → length c ≤ l
Pieces-le l c [] h = h
Pieces-le l c (d ∷ cs) h = omega (arith, h.0)

module _ (deliver : Buffer → ℕ → Bytes → Buffer) (stores : Stores deliver) where
  after_store : ℕ → Buffer → ℕ → Bytes → PieceVct → PieceVct
  after_store iter buf off c s =
      record (set_row iter
        (record { data_addr = some (deliver buf off c); len = (s.rows iter).len }) s) {
          actual = length c;
        }

  store_piece-after_store :
      (iter : ℕ) (buf : Buffer) (off : ℕ) (c : Bytes) (s : PieceVct)
      → (s.rows iter).data_addr ≡ some buf
      → store_piece deliver iter c (s, off) ≡ ok (after_store iter buf off c s)
  unfolding store_piece after_store
  store_piece-after_store iter buf off c s h = rw h refl

  Reading-after_store :
      (iter n : ℕ) (text : Bytes) (buf : Buffer) (c : Bytes) (s : PieceVct)
      → length buf ≡ s.pcs_len * n
      → s.num_pcs ≡ n
      → (s.rows iter).len ≡ length text
      → take (length text) buf ≡ map some text
      → length text + length c ≤ length buf
      → Reading iter n (text ++ c) (after_store iter buf (length text) c s)
  unfolding after_store
  Reading-after_store iter n text buf c s hb hn hl ht le =
      let (same_length, there) = stores buf (length text) c le in
      let row : Row = record {
        data_addr = some (deliver buf (length text) c);
        len = (s.rows iter).len;
      } in
      (
        deliver buf (length text) c,
        ap (λ r. r.data_addr) (set_row-same iter row s),
        omega (arith, same_length, hb),
        hn,
        omega (arith, ap (λ r. r.len) (set_row-same iter row s), hl, length-append text c),
        ap (λ k. take k (deliver buf (length text) c)) (length-append text c)
            ∙ there
            ∙ ap (λ b. b ++ map some c) ht
            ∙ sym (map-append text c),
      )

  begun-Reading :
      (iter : ℕ) (c : Bytes) (s : PieceVct)
      → length c ≤ s.pcs_len
      → (s' : PieceVct) × (store_piece deliver iter c (begin_value iter s) ≡ ok s')
        × Reading iter 1 c s'
        × (s'.pcs_len ≡ s.pcs_len)
  unfolding begin_value after_store
  begun-Reading iter c s h =
      let fresh : Buffer = replicate s.pcs_len none in
      let s1 = (begin_value iter s).0 in
      let row : Row = record { data_addr = some fresh; len = 0 } in
      let whole = length-replicate {A = Option ℕ} s.pcs_len none in
      (
        after_store iter fresh 0 c s1,
        store_piece-after_store iter fresh 0 c s1 (ap (λ r. r.data_addr) (set_row-same iter row s)),
        Reading-after_store iter 1 [] fresh c s1 (omega (arith, whole)) refl
            (ap (λ r. r.len) (set_row-same iter row s)) refl (omega (arith, whole)),
        refl,
      )

  after_continue : ℕ → Buffer → PieceVct → PieceVct
  after_continue iter buf s =
      record (set_row iter
        (record {
          data_addr = some (take (s.pcs_len * s.num_pcs) buf ++ replicate s.pcs_len none);
          len = add_length (s.rows iter).len s.actual;
        })
        s) { num_pcs = s.num_pcs + 1; actual = s.pcs_len }

  continue_value-after_continue :
      (iter : ℕ) (buf : Buffer) (s : PieceVct)
      → (s.rows iter).data_addr ≡ some buf
      → s.pcs_len * (s.num_pcs + 1) < 2 ^ 31
      → s.pcs_len * s.num_pcs ≤ length buf
      → continue_value iter s ≡ ok (after_continue iter buf s, s.pcs_len * s.num_pcs)
  unfolding continue_value after_continue
  continue_value-after_continue iter buf s hd small le =
      rw
        (
          hd,
          lt→ltb (s.pcs_len * (s.num_pcs + 1)) (2 ^ 31) small,
          le→leb (s.pcs_len * s.num_pcs) (length buf) le,
        )
        refl

  take_full :
      (buf fresh : Buffer) (n m : ℕ) → length buf ≡ n → m ≡ n → take m (take n buf ++ fresh) ≡ buf
  take_full buf fresh n m e q =
      ap (λ k. take k (take n buf ++ fresh)) (q ∙ sym e)
      ∙ ap (λ k. take (length buf) (take k buf ++ fresh)) (sym e)
      ∙ ap (λ b. take (length buf) (b ++ fresh)) (take_all buf)
      ∙ take-append_length buf fresh

  continued-Reading :
      (iter n : ℕ) (text c : Bytes) (s : PieceVct)
      → Reading iter n text s
      → length text ≡ s.pcs_len * n
      → length c ≤ s.pcs_len
      → s.pcs_len * (n + 1) < 2 ^ 31
      → (s' : PieceVct) × ((continue_value iter s >>= λ r. store_piece deliver iter c r) ≡ ok s')
        × Reading iter (n + 1) (text ++ c) s'
        × (s'.pcs_len ≡ s.pcs_len)
  unfolding after_continue after_store
  continued-Reading iter n text c s (buf, hd, hb, hn, hl, ht) full h small =
      let used = s.pcs_len * s.num_pcs in
      let is_used : used ≡ length text = ap (λ k. s.pcs_len * k) hn ∙ sym full in
      let fresh : Buffer = replicate s.pcs_len none in
      let grown : Buffer = take used buf ++ fresh in
      let s1 = after_continue iter buf s in
      let row : Row = record {
        data_addr = some grown;
        len = add_length (s.rows iter).len s.actual;
      } in
      let size : length buf ≡ used = hb ∙ sym full ∙ sym is_used in
      let grown_size : length grown ≡ s.pcs_len * (n + 1) =
        length-append (take used buf) fresh
        ∙ omega (
          arith,
          length-take used buf,
          size,
          hb,
          length-replicate {A = Option ℕ} s.pcs_len none,
        ) in
      (
        after_store iter grown used c s1,
        ap (λ m. m >>= λ r. store_piece deliver iter c r)
              (continue_value-after_continue iter buf s hd
                (subst (λ k. s.pcs_len * (k + 1) < 2 ^ 31) (sym hn) small) (omega (arith, size)))
            ∙ store_piece-after_store iter grown used c s1
                (ap (λ r. r.data_addr) (set_row-same iter row s)),
        subst (λ u. Reading iter (n + 1) (text ++ c) (after_store iter grown u c s1)) (sym is_used)
            (Reading-after_store iter (n + 1) text grown c s1 grown_size (ap (λ k. k + 1) hn)
              (ap (λ r. r.len) (set_row-same iter row s)
                ∙ add_length_small (s.rows iter).len s.actual (omega (arith, hl, full))
                ∙ hl)
              (take_full buf fresh used (length text) size (sym is_used)
                ∙ sym (take_all buf)
                ∙ ap (λ k. take k buf) (size ∙ is_used)
                ∙ ht)
              (omega (arith, grown_size, full))),
        refl,
      )

  fetch_rest_step :
      (iter : ℕ) (c : Bytes) (cs : List Bytes) (s : PieceVct)
      → fetch_rest deliver iter (c ∷ cs) s ≡ (
          (continue_value iter s >>= λ r. store_piece deliver iter c r) >>= λ s'.
          fetch_rest deliver iter cs s')
  unfolding fetch_rest cbk_func
  fetch_rest_step iter c [] s = bind_assoc (continue_value iter s) _ _
  fetch_rest_step iter c (d ∷ cs) s = bind_assoc (continue_value iter s) _ _

  rest-Reading :
      (iter n l : ℕ) (text c : Bytes) (cs : List Bytes) (s : PieceVct)
      → Reading iter n text s
      → s.pcs_len ≡ l
      → length text + l ≡ l * n + length c
      → Pieces l c cs
      → l * (n + length cs) < 2 ^ 31
      → (s' : PieceVct) × (fetch_rest deliver iter cs s ≡ ok s')
        × Reading iter (n + length cs) (text ++ concat cs) s'
        × (s'.pcs_len ≡ l)
  rest-Reading iter n l text c [] s hr hp ht pieces small = (
    s,
    unfold fetch_rest in refl,
    subst (λ k. Reading iter k (text ++ []) s) (omega arith)
        (subst (λ u. Reading iter n u s) (sym (append-nil text)) hr),
    hp,
  )
  rest-Reading iter n l text c (d ∷ cs) s hr hp ht pieces small =
      let (s1, e1, r1, p1) =
        continued-Reading iter n text d s hr (omega (arith, ht, pieces.0, ap (λ k. k * n) hp))
          (omega (arith, Pieces-le l d cs pieces.1, hp))
          (subst (λ k. k * (n + 1) < 2 ^ 31) (sym hp) (omega (arith, small))) in
      let (s2, e2, r2, p2) =
        rest-Reading iter (n + 1) l (text ++ d) d cs s1 r1 (p1 ∙ hp)
          (omega (arith, ht, pieces.0, length-append text d)) pieces.1 (omega (arith, small)) in
      (
        s2,
        fetch_rest_step iter d cs s ∙ ap (λ m. m >>= λ q. fetch_rest deliver iter cs q) e1 ∙ e2,
        subst (λ k. Reading iter k (text ++ (d ++ concat cs)) s2) (omega arith)
            (subst (λ u. Reading iter (n + 1 + length cs) u s2) (append_assoc text d (concat cs))
              r2),
        p2,
      )

  fetch_value_step :
      (iter : ℕ) (c : Bytes) (cs : List Bytes) (s s0 : PieceVct)
      → terminate_previous iter s ≡ ok s0
      → fetch_value deliver iter c cs s
        ≡ (store_piece deliver iter c (begin_value iter s0) >>= λ s'. fetch_rest deliver iter cs s')
  unfolding fetch_value cbk_func
  fetch_value_step iter c [] s s0 h =
      ap
        (λ m. (m >>= λ q. ok (begin_value iter q)) >>= λ r.
          store_piece deliver iter c r >>= λ s'. fetch_rest deliver iter [] s')
        h
  fetch_value_step iter c (d ∷ cs) s s0 h =
      ap
        (λ m. (m >>= λ q. ok (begin_value iter q)) >>= λ r.
          store_piece deliver iter c r >>= λ s'. fetch_rest deliver iter (d ∷ cs) s')
        h

  pub value-Reading :
      (iter : ℕ) (c : Bytes) (cs : List Bytes) (s s0 : PieceVct)
      → terminate_previous iter s ≡ ok s0
      → Pieces s0.pcs_len c cs
      → s0.pcs_len * suc (length cs) < 2 ^ 31
      → (s' : PieceVct) × (fetch_value deliver iter c cs s ≡ ok s')
        × Reading iter (suc (length cs)) (c ++ concat cs) s'
        × (s'.pcs_len ≡ s0.pcs_len)
  value-Reading iter c cs s s0 h pieces small =
      let (s1, e1, r1, p1) = begun-Reading iter c s0 (Pieces-le s0.pcs_len c cs pieces) in
      let (s2, e2, r2, p2) =
        rest-Reading iter 1 s0.pcs_len c c cs s1 r1 p1 (omega arith) pieces
          (subst (λ k. s0.pcs_len * k < 2 ^ 31) (omega arith) small) in
      (
        s2,
        fetch_value_step iter c cs s s0 h
            ∙ ap (λ m. m >>= λ q. fetch_rest deliver iter cs q) e1
            ∙ e2,
        subst (λ k. Reading iter k (c ++ concat cs) s2) (omega arith) r2,
        p2,
      )
