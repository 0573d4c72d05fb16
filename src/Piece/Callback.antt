-- ===== src/Piece/Callback.antt =====
-- lib/sql/occi/cPieceVct.cpp: the class `cPieceVct`. The fields of row `i` stand `iSkip_ * i` bytes behind
-- those of the first row; here they are the row at index `i`. A byte of a buffer that was not written yet
-- is `none`.
use xtru.Common.{
  ltb, leb, ◌==◌, if◌then◌else◌, Bytes, length, take, replicate, Result, ◌>>=◌, ◌>>◌, guard, fault,
  ok, err, is_empty, ℕ, zero, suc, ◌+◌, ◌*◌, ◌%◌, ◌^◌, Option, none, some, List, [], ◌∷◌, ◌++◌,
}

abbrev pub Buffer : Type 0
Buffer = List (Option ℕ)

pub record Row : Type 0 where
  pub data_addr : Option Buffer
  pub len : ℕ

pub record PieceVct : Type 0 where
  pub num_pcs : ℕ
  pub actual : ℕ
  pub longest : ℕ
  pub pcs_len : ℕ
  pub rows : ℕ → Row

pub data PieceKind : Type 0 where
  one_piece first_piece next_piece last_piece : PieceKind

abbrev pub set_row : ℕ → Row → PieceVct → PieceVct
set_row i r s = record s { rows = λ j. if j == i then r else s.rows j }

-- `*length += pv->iActual_`, of 32 bits.
abbrev pub add_length : ℕ → ℕ → ℕ
add_length a b = (a + b) % 2 ^ 32

-- `data[*length] = '\0'`
abbrev pub put_at : ℕ → ℕ → Buffer → Result Buffer
put_at i c [] = err fault
put_at zero c (b ∷ buf) = ok (some c ∷ buf)
put_at (suc i) c (b ∷ buf) = put_at i c buf >>= λ t. ok (b ∷ t)

-- A null pointer cannot be read through.
abbrev pub deref : Option Buffer → Result Buffer
deref none = err fault
deref (some buf) = ok buf

-- `vTerminateLatest`; the row before the first one is outside of the array.
unfoldable pub terminate_latest : ℕ → PieceVct → Result PieceVct
terminate_latest zero s = err fault
terminate_latest (suc i) s =
    let l = add_length (s.rows i).len s.actual in
    do
      buf ← deref (s.rows i).data_addr
      buf' ← put_at l 0 buf
      ok (record (set_row i (record { data_addr = some buf'; len = l }) s) {
        longest = if ltb s.longest l then l else s.longest;
      })

-- `OCI_ONE_PIECE` and `OCI_FIRST_PIECE`: the offset in the row's buffer at which the piece is to be stored.
unfoldable pub begin_value : ℕ → PieceVct → PieceVct × ℕ
begin_value iter s = (
  record (set_row iter (record { data_addr = some (replicate s.pcs_len none); len = 0 }) s) {
    num_pcs = 1;
    actual = s.pcs_len;
  },
  0,
)

-- `OCI_NEXT_PIECE` and `OCI_LAST_PIECE`; the product of `int32_t` must not overflow.
unfoldable pub continue_value : ℕ → PieceVct → Result (PieceVct × ℕ)
continue_value iter s =
    let used = s.pcs_len * s.num_pcs in
    do
      buf ← deref (s.rows iter).data_addr
      guard (ltb (s.pcs_len * (s.num_pcs + 1)) (2 ^ 31)) fault
      guard (leb used (length buf)) fault
      ok (
        record (set_row iter
            (record {
              data_addr = some (take used buf ++ replicate s.pcs_len none);
              len = add_length (s.rows iter).len s.actual;
            })
            s) { num_pcs = s.num_pcs + 1; actual = s.pcs_len },
        used,
      )

-- `if (iter) { vTerminateLatest(pv, iter); }`
unfoldable pub terminate_previous : ℕ → PieceVct → Result PieceVct
unfolding terminate_latest
terminate_previous zero s = ok s
terminate_previous (suc i) s = terminate_latest (suc i) s

-- `iCbkFunc`
unfoldable pub cbk_func : PieceKind → ℕ → PieceVct → Result (PieceVct × ℕ)
unfolding begin_value continue_value terminate_previous
cbk_func one_piece iter s = terminate_previous iter s >>= λ s'. ok (begin_value iter s')
cbk_func first_piece iter s = terminate_previous iter s >>= λ s'. ok (begin_value iter s')
cbk_func next_piece iter s = continue_value iter s
cbk_func last_piece iter s = continue_value iter s

-- `deliver` is what OCI does with a piece: it stores the bytes in the buffer at the offset that it was
-- given. Then `*alenp`, which is `iActual_`, is their number.
module _ (deliver : Buffer → ℕ → Bytes → Buffer) where
  unfoldable pub store_piece : ℕ → Bytes → PieceVct × ℕ → Result PieceVct
  store_piece iter bytes (s, off) = do
    buf ← deref (s.rows iter).data_addr
    ok
        (record (set_row iter
          (record { data_addr = some (deliver buf off bytes); len = (s.rows iter).len }) s) {
            actual = length bytes;
          })

  -- The pieces of a value that follow its first one.
  unfoldable pub fetch_rest : ℕ → List Bytes → PieceVct → Result PieceVct
  unfolding cbk_func store_piece
  fetch_rest iter [] s = ok s
  fetch_rest iter (c ∷ cs) s =
      cbk_func (if is_empty cs then last_piece else next_piece) iter s >>= λ r.
      store_piece iter c r >>= λ s'. fetch_rest iter cs s'

  -- One value in its pieces.
  unfoldable pub fetch_value : ℕ → Bytes → List Bytes → PieceVct → Result PieceVct
  unfolding fetch_rest
  fetch_value iter c cs s =
      cbk_func (if is_empty cs then one_piece else first_piece) iter s >>= λ r.
      store_piece iter c r >>= λ s'. fetch_rest iter cs s'
