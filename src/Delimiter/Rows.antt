-- ===== src/Delimiter/Rows.antt =====
-- lib/sql/occi/cUnloader.cpp: `vPostBulkAction` fills the rows column by column; here the rows are
-- filled one at a time.
use xtru.Common.{
  Bytes, length, replicate, All, length-replicate, is_empty, suc, ◌≡◌, refl, ap, ◌∙◌, Bool, not,
  List, [], ◌∷◌, map, arith,
}
use xtru.Delimiter.Fields.{Delimiter, Value, Kind, convert, set_row_buf, fill_columns}

abbrev pub heads : List (List Value) → List Value
heads [] = []
heads ([] ∷ rows) = heads rows
heads ((v ∷ vs) ∷ rows) = v ∷ heads rows

abbrev pub tails : List (List Value) → List (List Value)
tails [] = []
tails ([] ∷ rows) = tails rows
tails ((v ∷ vs) ∷ rows) = vs ∷ tails rows

-- The columns of a table of rows, each with the kind of its attribute.
abbrev pub columns : List Kind → List (List Value) → List (Kind × List Value)
columns [] rows = []
columns (k ∷ ks) rows = (k, heads rows) ∷ columns ks (tails rows)

-- The text of one row, value by value.
unfoldable pub build : Delimiter → List Kind → List Value → Bytes → Bytes
unfolding convert
build d [] vs buf = buf
build d (k ∷ ks) [] buf = buf
build d (k ∷ ks) (v ∷ vs) buf = build d ks vs (convert d k buf v (not (is_empty ks)))

build_all : Delimiter → List Kind → List (List Value) → List Bytes → List Bytes
build_all d ks [] bufs = []
build_all d ks (r ∷ rows) [] = []
build_all d ks (r ∷ rows) (b ∷ bufs) = build d ks r b ∷ build_all d ks rows bufs

-- Every row has one value for each attribute.
abbrev pub Fits : List Kind → List (List Value) → Type 0
Fits ks rows = All (λ r. length r ≡ length ks) rows

is_empty-columns :
    (ks : List Kind) (rows : List (List Value)) → is_empty (columns ks rows) ≡ is_empty ks
is_empty-columns [] rows = refl
is_empty-columns (k ∷ ks) rows = refl

Fits-tails :
    (k : Kind) (ks : List Kind) (rows : List (List Value))
    → Fits (k ∷ ks) rows
    → Fits ks (tails rows)
Fits-tails k ks [] h = tt
Fits-tails k ks ([] ∷ rows) h = absurd (omega (arith, h.0))
Fits-tails k ks ((v ∷ vs) ∷ rows) h = (omega (arith, h.0), Fits-tails k ks rows h.1)

set_row_buf-length :
    (d : Delimiter) (k : Kind) (ks : List Kind) (rows : List (List Value)) (sep : Bool)
    (bufs : List Bytes)
    → Fits (k ∷ ks) rows
    → length bufs ≡ length rows
    → length (set_row_buf d k (heads rows) sep bufs) ≡ length (tails rows)
unfolding set_row_buf
set_row_buf-length d k ks [] sep bufs h e = e
set_row_buf-length d k ks ([] ∷ rows) sep bufs h e = absurd (omega (arith, h.0))
set_row_buf-length d k ks ((v ∷ vs) ∷ rows) sep [] h e = absurd (omega arith)
set_row_buf-length d k ks ((v ∷ vs) ∷ rows) sep (b ∷ bufs) h e =
    ap suc (set_row_buf-length d k ks rows sep bufs h.1 (omega arith))

build_all-column :
    (d : Delimiter) (k : Kind) (ks : List Kind) (rows : List (List Value)) (bufs : List Bytes)
    → Fits (k ∷ ks) rows
    → length bufs ≡ length rows
    → build_all d ks (tails rows) (set_row_buf d k (heads rows) (not (is_empty ks)) bufs)
      ≡ build_all d (k ∷ ks) rows bufs
unfolding set_row_buf build_all build
build_all-column d k ks [] bufs h e = refl
build_all-column d k ks ([] ∷ rows) bufs h e = absurd (omega (arith, h.0))
build_all-column d k ks ((v ∷ vs) ∷ rows) [] h e = absurd (omega arith)
build_all-column d k ks ((v ∷ vs) ∷ rows) (b ∷ bufs) h e =
    ap (◌∷◌ (build d ks vs (convert d k b v (not (is_empty ks)))))
      (build_all-column d k ks rows bufs h.1 (omega arith))

build_all-nil :
    (d : Delimiter) (rows : List (List Value)) (bufs : List Bytes)
    → length bufs ≡ length rows
    → bufs ≡ build_all d [] rows bufs
unfolding build_all build
build_all-nil d [] [] e = refl
build_all-nil d [] (b ∷ bufs) e = absurd (omega arith)
build_all-nil d (r ∷ rows) [] e = absurd (omega arith)
build_all-nil d (r ∷ rows) (b ∷ bufs) e = ap (◌∷◌ b) (build_all-nil d rows bufs (omega arith))

fill_columns-build_all :
    (d : Delimiter) (ks : List Kind) (rows : List (List Value)) (bufs : List Bytes)
    → Fits ks rows
    → length bufs ≡ length rows
    → fill_columns d (columns ks rows) bufs ≡ build_all d ks rows bufs
unfolding fill_columns
fill_columns-build_all d [] rows bufs h e = build_all-nil d rows bufs e
fill_columns-build_all d (k ∷ ks) rows bufs h e =
    ap (λ b. fill_columns d (columns ks (tails rows)) (set_row_buf d k (heads rows) (not b) bufs))
      (is_empty-columns ks (tails rows))
    ∙ fill_columns-build_all d ks (tails rows)
        (set_row_buf d k (heads rows) (not (is_empty ks)) bufs) (Fits-tails k ks rows h)
        (set_row_buf-length d k ks rows (not (is_empty ks)) bufs h e)
    ∙ build_all-column d k ks rows bufs h e

build_all-fresh :
    (d : Delimiter) (ks : List Kind) (rows : List (List Value))
    → build_all d ks rows (replicate (length rows) []) ≡ map (λ r. build d ks r []) rows
unfolding build_all
build_all-fresh d ks [] = refl
build_all-fresh d ks (r ∷ rows) = ap (◌∷◌ (build d ks r [])) (build_all-fresh d ks rows)

-- The rows that the loop over the columns fills are those filled value by value.
pub fill_columns-build :
    (d : Delimiter) (ks : List Kind) (rows : List (List Value))
    → Fits ks rows
    → fill_columns d (columns ks rows) (replicate (length rows) [])
      ≡ map (λ r. build d ks r []) rows
fill_columns-build d ks rows h =
    fill_columns-build_all d ks rows (replicate (length rows) []) h
      (length-replicate {A = Bytes} (length rows) [])
    ∙ build_all-fresh d ks rows
