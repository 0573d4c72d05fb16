-- ===== src/Piece/Samples.antt =====
-- The theorems on piecewise fetching at concrete pieces.
use xtru.Common.{
  Bytes, codes, length, take, ◌>>=◌, fault, ok, err, ℕ, zero, suc, ◌+◌, ◌≤◌, ◌≡◌, refl, ap, ◌∙◌,
  none, some, [], ◌∷◌, map, arith,
}
use xtru.Piece.Callback.{Buffer, PieceVct, terminate_latest, terminate_previous, fetch_value}
use xtru.Piece.Fetch.{Stores}
use xtru.Piece.Terminate.{HasText, fetch_value-HasText, fetch_value-overrun}

overwrite : Bytes → Buffer → Buffer
overwrite [] buf = buf
overwrite (c ∷ s) [] = []
overwrite (c ∷ s) (b ∷ buf) = some c ∷ overwrite s buf

overwrite-length : (s : Bytes) (buf : Buffer) → length (overwrite s buf) ≡ length buf
unfolding overwrite
overwrite-length [] buf = refl
overwrite-length (c ∷ s) [] = refl
overwrite-length (c ∷ s) (b ∷ buf) = ap suc (overwrite-length s buf)

overwrite-take :
    (s : Bytes) (buf : Buffer)
    → length s ≤ length buf
    → take (length s) (overwrite s buf) ≡ map some s
unfolding overwrite
overwrite-take [] buf h = refl
overwrite-take (c ∷ s) [] h = absurd (omega arith)
overwrite-take (c ∷ s) (b ∷ buf) h = ap (◌∷◌ (some c)) (overwrite-take s buf (omega arith))

deliver : Buffer → ℕ → Bytes → Buffer
unfolding overwrite
deliver buf zero bytes = overwrite bytes buf
deliver [] (suc off) bytes = []
deliver (b ∷ buf) (suc off) bytes = b ∷ deliver buf off bytes

deliver-Stores : Stores deliver
unfolding deliver
deliver-Stores buf zero bytes h = (
  overwrite-length bytes buf,
  ap (λ k. take k (overwrite bytes buf)) (omega arith) ∙ overwrite-take bytes buf (omega arith),
)
deliver-Stores [] (suc off) bytes h = absurd (omega arith)
deliver-Stores (b ∷ buf) (suc off) bytes h =
    let (l, t) = deliver-Stores buf off bytes (omega arith) in
    let shift : suc off + length bytes ≡ suc (off + length bytes) = omega arith in
    (ap suc l, ap (λ k. take k (b ∷ deliver buf off bytes)) shift ∙ ap (◌∷◌ b) t)

abbrev empty : PieceVct
empty = record {
  num_pcs = 0;
  actual = 0;
  longest = 0;
  pcs_len = 4;
  rows = λ i. record { data_addr = none; len = 0 };
}

begin_empty : terminate_previous 0 empty ≡ ok empty
unfolding terminate_previous
begin_empty = refl

fetch_value-HasText_example :
    (s' : PieceVct) × ((fetch_value deliver 0 (codes "abcd") (codes "ef" ∷ []) empty
        >>= terminate_latest 1)
      ≡ ok s')
    × HasText 0 (codes "abcdef") s'
fetch_value-HasText_example =
    fetch_value-HasText deliver deliver-Stores 0 (codes "abcd") (codes "ef" ∷ []) empty empty
      begin_empty (refl, omega arith) (omega arith) (omega arith)

fetch_value-overrun_example :
    (fetch_value deliver 0 (codes "abcd") (codes "efgh" ∷ []) empty >>= terminate_latest 1)
    ≡ err fault
fetch_value-overrun_example =
    fetch_value-overrun deliver deliver-Stores 0 (codes "abcd") (codes "efgh" ∷ []) empty empty
      begin_empty (refl, omega arith) (omega arith) refl
