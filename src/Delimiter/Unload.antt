-- ===== src/Delimiter/Unload.antt =====
-- lib/sql/occi/cUnloader.cpp: the rows of a data file are read back by the separators and enclosures.
use xtru.Common.{
  if◌then◌else◌, Bytes, length, take, drop, All, take-append_length, drop-append_length,
  starts_with, find, is_empty, starts_with_self, find-append, ℕ, suc, ◌^◌, ◌≤◌, ◌<◌, ◌≡◌, refl, ap,
  ◌∙◌, Bool, true, false, Option, none, some, List, [], ◌∷◌, ◌++◌, map, append-nil, append_assoc,
  arith,
}
use mathlib.Core.Option
use xtru.Delimiter.Fields.{
  Delimiter, Value, Kind, enclosed, bare, content, closing, convert, last_separator, finish_row,
  put_rows, post_bulk,
}
use xtru.Delimiter.Literal.{to_data}
use xtru.Delimiter.Records.{read_records, put_rows-read}
use xtru.Delimiter.Rows.{columns, build, Fits, fill_columns-build}

-- What ends a row.
abbrev row_end : Delimiter → Bytes
row_end d = last_separator d to_data ++ d.data_item.row_separator

abbrev opening : Delimiter → Kind → Bytes
opening d enclosed = d.data_item.enclosure1
opening d bare = []

-- What stands behind the text of a field, the last of its row or not.
abbrev terminator : Delimiter → Kind → Bool → Bytes
terminator d enclosed last = closing d ++ (if last then row_end d else d.data_item.col_separator)
terminator d bare last = if last then row_end d else d.data_item.col_separator

-- A field ends where its terminator first stands.
unfoldable read_field : Bytes → Bytes → Bytes → Option (Bytes × Bytes)
read_field first term s =
    let rest = drop (length first) s in
    if starts_with first s
    then Option.map (λ i. (take i rest, drop (length term) (drop i rest))) (find term rest)
    else none

abbrev and_then {ℓ κ} : {A : Type ℓ} {B : Type κ} → Option A → (A → Option B) → Option B
and_then none f = none
and_then (some a) f = f a

-- The texts of the fields of a row, which leave nothing of it.
unfoldable pub read_row : Delimiter → List Kind → Bytes → Option (List Bytes)
unfolding read_field
read_row d [] [] = some []
read_row d [] (c ∷ s) = none
read_row d (k ∷ ks) s =
    and_then (read_field (opening d k) (terminator d k (is_empty ks)) s)
      (λ f. Option.map (◌∷◌ f.0) (read_row d ks f.1))

-- The terminator of each field stands first behind the text of its value.
abbrev pub Clean : Delimiter → List Kind → List Value → Type 0
Clean d [] vs = Unit
Clean d (k ∷ ks) [] = Unit
Clean d (k ∷ ks) (v ∷ vs) =
    let term = terminator d k (is_empty ks) in
    (find term (content v ++ term) ≡ some (length (content v))) × Clean d ks vs

spelled : Delimiter → List Kind → List Value → Bytes
spelled d [] vs = []
spelled d (k ∷ ks) [] = []
spelled d (k ∷ ks) (v ∷ vs) =
    opening d k ++ (content v ++ (terminator d k (is_empty ks) ++ spelled d ks vs))

read_field-written :
    (first text term rest : Bytes)
    → find term (text ++ term) ≡ some (length text)
    → read_field first term (first ++ (text ++ (term ++ rest))) ≡ some (text, rest)
unfolding read_field
read_field-written first text term rest h =
    rw
      (
        starts_with_self first (text ++ (term ++ rest)),
        drop-append_length first (text ++ (term ++ rest)),
        find-append term text rest h,
        take-append_length text (term ++ rest),
        drop-append_length text (term ++ rest),
        drop-append_length term rest,
      )
      refl

read_row-spelled :
    (d : Delimiter) (ks : List Kind) (vs : List Value)
    → length vs ≡ length ks
    → Clean d ks vs
    → read_row d ks (spelled d ks vs) ≡ some (map content vs)
unfolding read_row spelled
read_row-spelled d [] [] e h = refl
read_row-spelled d [] (v ∷ vs) e h = absurd (omega arith)
read_row-spelled d (k ∷ ks) [] e h = absurd (omega arith)
read_row-spelled d (k ∷ ks) (v ∷ vs) e h =
    let term = terminator d k (is_empty ks) in
    rw
      (
        read_field-written (opening d k) (content v) term (spelled d ks vs) h.0,
        read_row-spelled d ks vs (omega arith) h.1,
      )
      refl

convert-then :
    (d : Delimiter) (k : Kind) (buf : Bytes) (v : Value) (rest : Bytes)
    → convert d k buf v true ++ rest
      ≡ buf ++ (opening d k ++ (content v ++ (terminator d k false ++ rest)))
unfolding convert
convert-then d enclosed buf v rest = simp append_assoc
convert-then d bare buf v rest = simp append_assoc

convert-last :
    (d : Delimiter) (k : Kind) (buf : Bytes) (v : Value)
    → convert d k buf v false ++ row_end d
      ≡ buf ++ (opening d k ++ (content v ++ (terminator d k true ++ [])))
unfolding convert
convert-last d enclosed buf v = simp (append_assoc, append-nil)
convert-last d bare buf v = simp (append_assoc, append-nil)

build-spelled :
    (d : Delimiter) (k : Kind) (ks : List Kind) (v : Value) (vs : List Value) (buf : Bytes)
    → length vs ≡ length ks
    → build d (k ∷ ks) (v ∷ vs) buf ++ row_end d ≡ buf ++ spelled d (k ∷ ks) (v ∷ vs)
unfolding build spelled
build-spelled d k [] v [] buf e = convert-last d k buf v
build-spelled d k [] v (w ∷ vs) buf e = absurd (omega arith)
build-spelled d k (l ∷ ks) v [] buf e = absurd (omega arith)
build-spelled d k (l ∷ ks) v (w ∷ vs) buf e =
    build-spelled d l ks w vs (convert d k buf v true) (omega arith)
    ∙ convert-then d k buf v (spelled d (l ∷ ks) (w ∷ vs))

read_row-finished :
    (d : Delimiter) (k : Kind) (ks : List Kind) (r : List Value)
    → length r ≡ suc (length ks)
    → Clean d (k ∷ ks) r
    → read_row d (k ∷ ks) (finish_row d (build d (k ∷ ks) r [])) ≡ some (map content r)
unfolding finish_row
read_row-finished d k ks [] e h = absurd (omega arith)
read_row-finished d k ks (v ∷ vs) e h =
    ap (read_row d (k ∷ ks)) (build-spelled d k ks v vs [] (omega arith))
    ∙ read_row-spelled d (k ∷ ks) (v ∷ vs) e h

read_rows-finished :
    (d : Delimiter) (k : Kind) (ks : List Kind) (rows : List (List Value))
    → Fits (k ∷ ks) rows
    → All (Clean d (k ∷ ks)) rows
    → map (read_row d (k ∷ ks)) (map (finish_row d) (map (λ r. build d (k ∷ ks) r []) rows))
      ≡ map (λ r. some (map content r)) rows
read_rows-finished d k ks [] e h = refl
read_rows-finished d k ks (r ∷ rows) e h =
    cc (read_row-finished d k ks r e.0 h.0, read_rows-finished d k ks rows e.1 h.1)

All-built :
    (d : Delimiter) (ks : List Kind) (b : ℕ) (rows : List (List Value))
    → All (λ r. length (finish_row d (build d ks r [])) < b) rows
    → All (λ r. length (finish_row d r) < b) (map (λ r. build d ks r []) rows)
All-built d ks b [] h = tt
All-built d ks b (r ∷ rows) h = (h.0, All-built d ks b rows h.1)

length-built :
    (d : Delimiter) (ks : List Kind) (rows : List (List Value))
    → length (map (λ r. build d ks r []) rows) ≡ length rows
length-built d ks [] = refl
length-built d ks (r ∷ rows) = ap suc (length-built d ks rows)

-- For rows of one value for each of at least one attribute, in none of which the text of a value together
-- with its terminator has that terminator at an earlier place, and whose finished lengths have at most
-- the digits of the length field, reading the data file record by record and field by field gives back
-- the contents of all values.
pub post_bulk_roundtrip :
    (d : Delimiter) (w n : ℕ) (k : Kind) (ks : List Kind) (rows : List (List Value))
    → d.var_digit ≡ suc w
    → Fits (k ∷ ks) rows
    → All (Clean d (k ∷ ks)) rows
    → All (λ r. length (finish_row d (build d (k ∷ ks) r [])) < 10 ^ suc w) rows
    → length rows ≤ n
    → map
        (read_row d (k ∷ ks))
        (read_records n (suc w) (post_bulk d (length rows) (columns (k ∷ ks) rows) ([], 0)).0)
      ≡ map (λ r. some (map content r)) rows
unfolding post_bulk
post_bulk_roundtrip d w n k ks rows ew fits clean short le =
    let built = map (λ r. build d (k ∷ ks) r []) rows in
    ap (λ b. map (read_row d (k ∷ ks)) (read_records n (suc w) (put_rows d b ([], 0)).0))
      (fill_columns-build d (k ∷ ks) rows fits)
    ∙ ap (map (read_row d (k ∷ ks))) (
        put_rows-read d w n built ew (All-built d (k ∷ ks) (10 ^ suc w) rows short)
          (omega (arith, length-built d (k ∷ ks) rows)))
    ∙ read_rows-finished d k ks rows fits clean
