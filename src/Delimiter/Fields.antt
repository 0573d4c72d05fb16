-- ===== src/Delimiter/Fields.antt =====
-- inc/cDelimiter.h and lib/cDelimiter.cpp: the class `cDelimiter`, and lib/sql/occi/cUnloader.cpp: the
-- rows that it writes to a data file.
use xtru.Common.{
  ltb, ◌==◌, if◌then◌else◌, Bytes, codes, length, replicate, is_empty, ℕ, ◌+◌, ◌-◌, Bool, not,
  Option, none, some, List, [], ◌∷◌, ◌++◌,
}
use xtru.Common.Decimal.{decimal}
use xtru.Delimiter.Literal.{Searcher, Target, to_data, to_ctrl, conv_literal}

-- `cDelimiter::tItem`.
pub record Item : Type 0 where
  pub row_separator : Bytes
  pub col_separator : Bytes
  pub enclosure1 : Bytes
  pub enclosure2 : Bytes

pub record Delimiter : Type 0 where
  pub end_term : Bool
  pub var_digit : ℕ
  pub is_explicit : Bool
  pub embed_column_names : Bool
  pub data_item : Item
  pub ctrl_item : Item

infixl 5 ◌>>=?◌
abbrev pub ◌>>=?◌ {ℓ κ} : {A : Type ℓ} {B : Type κ} → Option A → (A → Option B) → Option B
none >>=? f = none
some a >>=? f = f a

unfoldable pub make_item :
    Searcher → Searcher → Target → Bytes → Bytes → Bytes → Bytes → Option Item
unfolding conv_literal
make_item escaped hexdecm t row col enc1 enc2 = conv_literal escaped hexdecm t row >>=? λ r.
    conv_literal escaped hexdecm t col >>=? λ c. conv_literal escaped hexdecm t enc1 >>=? λ e.
    conv_literal escaped hexdecm t enc2 >>=? λ f.
    some (record { row_separator = r; col_separator = c; enclosure1 = e; enclosure2 = f })

-- The constructor; `none` would be fuel that ran out in a conversion.
unfoldable pub make_delimiter :
    Searcher → Searcher → Bytes → Bytes → Bytes → Bytes → Bool → ℕ → Bool → Option Delimiter
unfolding make_item
make_delimiter escaped hexdecm row col enc1 enc2 end_term var_digit embed =
    make_item escaped hexdecm to_data row col enc1 enc2 >>=? λ d.
    make_item escaped hexdecm to_ctrl row col enc1 enc2 >>=? λ c. some (record {
      end_term = end_term;
      var_digit = var_digit;
      is_explicit = ltb 0 (length enc2);
      embed_column_names = embed;
      data_item = d;
      ctrl_item = c;
    })

abbrev item : Delimiter → Target → Item
item d to_data = d.data_item
item d to_ctrl = d.ctrl_item

-- `sGetLastSeparator`.
unfoldable pub last_separator : Delimiter → Target → Bytes
last_separator d t = if d.end_term then (item d t).col_separator else []

-- `sGetClauseEncForCtrl`.
unfoldable pub enclosed_by_clause : Delimiter → Bytes
enclosed_by_clause d =
    codes "ENCLOSED BY "
    ++ (d.ctrl_item.enclosure1
        ++ (if d.is_explicit then codes " AND " ++ d.ctrl_item.enclosure2 else []))

-- The lambda of the constructor: `std::setw(iVarDigit_) << std::setfill('0') << body.size()`.
unfoldable pub length_string : Delimiter → Bytes → Bytes
unfolding decimal
length_string d body =
    let digits = decimal (length body) in
    if d.var_digit == 0 then [] else replicate (d.var_digit - length digits) b'0' ++ digits

abbrev pub closing : Delimiter → Bytes
closing d = if d.is_explicit then d.data_item.enclosure2 else d.data_item.enclosure1

-- A value as it is fetched: its text, and whether the indicator is `VAL_IS_NOTNULL`.
pub record Value : Type 0 where
  pub text : Bytes
  pub not_null : Bool

abbrev pub content : Value → Bytes
content v = if v.not_null then v.text else []

abbrev separator : Delimiter → Bool → Bytes
separator d sep = if sep then d.data_item.col_separator else []

-- `vEnCls`.
unfoldable pub enclose : Delimiter → Bytes → Value → Bool → Bytes
enclose d dest v sep =
    dest ++ (d.data_item.enclosure1 ++ (content v ++ (closing d ++ separator d sep)))

-- `vUnCls`.
unfoldable pub unenclose : Delimiter → Bytes → Value → Bool → Bytes
unenclose d dest v sep = dest ++ (content v ++ separator d sep)

-- Which of the two an attribute calls: texts and dates are enclosed, numbers are not.
pub data Kind : Type 0 where
  enclosed bare : Kind

unfoldable pub convert : Delimiter → Kind → Bytes → Value → Bool → Bytes
unfolding enclose unenclose
convert d enclosed = enclose d
convert d bare = unenclose d

-- `vSetRowBuf`: one column, appended to the text of each row.
unfoldable pub set_row_buf : Delimiter → Kind → List Value → Bool → List Bytes → List Bytes
unfolding convert
set_row_buf d k [] sep rows = rows
set_row_buf d k (v ∷ vs) sep [] = []
set_row_buf d k (v ∷ vs) sep (r ∷ rows) = convert d k r v sep ∷ set_row_buf d k vs sep rows

-- The loop of `vPostBulkAction` over the columns; a separator follows each but the last.
unfoldable pub fill_columns : Delimiter → List (Kind × List Value) → List Bytes → List Bytes
unfolding set_row_buf
fill_columns d [] rows = rows
fill_columns d ((k, vs) ∷ cols) rows =
    fill_columns d cols (set_row_buf d k vs (not (is_empty cols)) rows)

-- One round of `vPutRowsToDataFile`.
unfoldable pub finish_row : Delimiter → Bytes → Bytes
unfolding last_separator
finish_row d row = row ++ (last_separator d to_data ++ d.data_item.row_separator)

-- `vPutRowsToDataFile`: what is written, and the bytes counted by `vAddOutputBytes`.
unfoldable pub put_rows : Delimiter → List Bytes → Bytes × ℕ → Bytes × ℕ
unfolding finish_row length_string
put_rows d [] s = s
put_rows d (r ∷ rows) (file, total) =
    let row = finish_row d r in
    let len = length_string d row in
    put_rows d rows (file ++ (len ++ row), total + (length len + length row))

-- `vClearBuffer`, then `vPostBulkAction` on `n` rows, where the two assertions hold: `n` is not 0, for
-- which `iFetch` does not call it, and at most the bulk size.
unfoldable pub post_bulk : Delimiter → ℕ → List (Kind × List Value) → Bytes × ℕ → Bytes × ℕ
unfolding fill_columns put_rows
post_bulk d n cols s = put_rows d (fill_columns d cols (replicate n [])) s
