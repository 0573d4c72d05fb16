-- ===== src/Delimiter/Configured.antt =====
-- lib/cDelimiter.cpp: `vSeparateToDelimiters` and `oMakeVarDelimiter`, and lib/sql/occi/cUnloader.cpp: the
-- names of the columns in front of the rows.
use xtru.Common.{
  ltb, ◌==◌, if◌then◌else◌, Bytes, length, Result, guard, ◌>>=◌, ◌>>◌, aborted, fault, err, ok,
  is_empty, ℕ, suc, ◌+◌, ◌≡◌, refl, sym, ap, ◌∙◌, ◌⊎◌, inl, inr, Bool, true, false, not, Option,
  none, some, List, [], ◌∷◌, ◌++◌, map, arith,
}
use mathlib.Core.Option.{some-injective}
use xtru.Delimiter.Literal.{Searcher, to_data, to_ctrl}
use xtru.Delimiter.Fields.{
  ◌>>=?◌, Delimiter, Item, Value, Kind, enclosed, make_item, make_delimiter, enclose, convert,
  set_row_buf, fill_columns, finish_row, length_string, put_rows, post_bulk,
}

-- What `oMakeVarDelimiter` reads of the configuration.
pub record Settings : Type 0 where
  pub rowseparator : Bytes
  pub embed_column_name : Bytes
  pub terminator : Bytes
  pub encloser : Bytes
  pub encloser2 : Bytes
  pub endterm : Bool
  pub reclength : ℕ

-- `std::count`
abbrev pub count : ℕ → Bytes → ℕ
count c [] = 0
count c (x ∷ s) = if x == c then suc (count c s) else count c s

-- The three reads of `tok_it`; an iterator behind the end is a fault.
abbrev pub three_tokens : List Bytes → Result (Bytes × (Bytes × Bytes))
three_tokens (a ∷ b ∷ c ∷ rest) = ok (a, (b, c))
three_tokens ts = err fault

-- `vSeparateToDelimiters` with the separator ":"; `tokens` are those of `boost::tokenizer`.
unfoldable pub separate_to_delimiters :
    (Bytes → List Bytes) → Bytes → Result (Bytes × (Bytes × Bytes))
separate_to_delimiters tokens s = guard (count b':' s == 2) aborted >> three_tokens (tokens s)

module _ (escaped hexdecm : Searcher) (tokens : Bytes → List Bytes) (conf : Settings) where
  -- `oMakeVarDelimiter`; `none` would be fuel that ran out in a conversion.
  unfoldable pub make_var_delimiter : Result (Option Delimiter)
  make_var_delimiter =
      if ltb 0 (length conf.embed_column_name)
      then (separate_to_delimiters tokens conf.embed_column_name >>= λ t.
          ok (make_delimiter escaped hexdecm conf.rowseparator t.0 t.1.0 t.1.1 false 0 true))
      else ok (
          make_delimiter escaped hexdecm conf.rowseparator conf.terminator conf.encloser
            conf.encloser2 conf.endterm conf.reclength false)

abbrev pub named : Bytes → Value
named n = record { text = n; not_null = true }

-- `oGetColNamesList`, from the text that is there.
unfoldable pub col_names_list : Delimiter → Bytes → List Bytes → Bytes
col_names_list d buf [] = buf
col_names_list d buf (n ∷ names) =
    col_names_list d (enclose d buf (named n) (not (is_empty names))) names

-- `vPutColumnNamesToDataFile`: what is written, and the bytes counted by `vAddOutputBytes`.
unfoldable pub put_column_names : Delimiter → List Bytes → Bytes × ℕ → Bytes × ℕ
put_column_names d names (file, total) =
    let buf = finish_row d (col_names_list d [] names) in (file ++ buf, total + length buf)

-- `vPreRepeatAction`
unfoldable pub pre_repeat : Delimiter → List Bytes → Bytes × ℕ → Bytes × ℕ
pre_repeat d names s = if d.embed_column_names then put_column_names d names s else s

-- A row of the names as values that are enclosed.
abbrev pub name_row : List Bytes → List (Kind × List Value)
name_row names = map (λ n. (enclosed, named n ∷ [])) names

made_fields :
    (o p : Option Item) (make : Item → Item → Delimiter) (d : Delimiter)
    → (o >>=? λ x. p >>=? λ y. some (make x y)) ≡ some d
    → (x : Item) × ((y : Item) × (make x y ≡ d))
made_fields none p make d h = ground arith
made_fields (some x) none make d h = ground arith
made_fields (some x) (some y) make d h = (x, (y, some-injective (make x y) d h))

make_delimiter-fields :
    (escaped hexdecm : Searcher) (row col enc1 enc2 : Bytes) (end_term : Bool) (var : ℕ)
    (embed : Bool) (d : Delimiter)
    → make_delimiter escaped hexdecm row col enc1 enc2 end_term var embed ≡ some d
    → (d.var_digit ≡ var) × (d.embed_column_names ≡ embed)
unfolding make_delimiter
make_delimiter-fields escaped hexdecm row col enc1 enc2 end_term var embed d h =
    let made =
      made_fields (make_item escaped hexdecm to_data row col enc1 enc2)
        (make_item escaped hexdecm to_ctrl row col enc1 enc2) _ d h in
    (sym (ap (λ k. k.var_digit) made.1.1), sym (ap (λ k. k.embed_column_names) made.1.1))

value_of : Result (Option Delimiter) → Option Delimiter
value_of (err failing) = none
value_of (ok o) = o

by_tokens_fields :
    (escaped hexdecm : Searcher) (row : Bytes) (r : Result (Bytes × (Bytes × Bytes)))
    (d : Delimiter)
    → (r >>= λ t. ok (make_delimiter escaped hexdecm row t.0 t.1.0 t.1.1 false 0 true))
      ≡ ok (some d)
    → d.var_digit ≡ 0
unfolding value_of
by_tokens_fields escaped hexdecm row (err failing) d h = ground (arith, ap value_of h)
by_tokens_fields escaped hexdecm row (ok t) d h =
    (make_delimiter-fields escaped hexdecm row t.0 t.1.0 t.1.1 false 0 true d (ap value_of h)).0

either_result :
    (b : Bool) (x y : Result (Option Delimiter)) (d : Delimiter)
    → (if b then x else y) ≡ ok (some d)
    → (x ≡ ok (some d)) ⊎ (y ≡ ok (some d))
either_result true x y d h = inl h
either_result false x y d h = inr h

embedded_without_length :
    (escaped hexdecm : Searcher) (tokens : Bytes → List Bytes) (conf : Settings) (d : Delimiter)
    → make_var_delimiter escaped hexdecm tokens conf ≡ ok (some d)
    → d.embed_column_names ≡ true
    → d.var_digit ≡ 0
unfolding make_var_delimiter value_of
embedded_without_length escaped hexdecm tokens conf d h e =
    elim (either_result (ltb 0 (length conf.embed_column_name))
      (separate_to_delimiters tokens conf.embed_column_name >>= λ t.
        ok (make_delimiter escaped hexdecm conf.rowseparator t.0 t.1.0 t.1.1 false 0 true))
      (ok (
        make_delimiter escaped hexdecm conf.rowseparator conf.terminator conf.encloser
          conf.encloser2 conf.endterm conf.reclength false))
      d h) [
        | inl made ↦
            by_tokens_fields escaped hexdecm conf.rowseparator
              (separate_to_delimiters tokens conf.embed_column_name) d made
        | inr made ↦
            let fields =
              make_delimiter-fields escaped hexdecm conf.rowseparator conf.terminator conf.encloser
                conf.encloser2 conf.endterm conf.reclength false d (ap value_of made) in
            ground (arith, fields.1)
      ]

fill_columns-name_row :
    (d : Delimiter) (names : List Bytes) (buf : Bytes)
    → fill_columns d (name_row names) (buf ∷ []) ≡ col_names_list d buf names ∷ []
unfolding fill_columns set_row_buf convert col_names_list
fill_columns-name_row d [] buf = refl
fill_columns-name_row d (n ∷ []) buf = refl
fill_columns-name_row d (n ∷ m ∷ names) buf =
    fill_columns-name_row d (m ∷ names) (enclose d buf (named n) true)

put_rows_one :
    (d : Delimiter) (r : Bytes) (s : Bytes × ℕ)
    → d.var_digit ≡ 0
    → put_rows d (r ∷ []) s ≡ (s.0 ++ finish_row d r, s.1 + length (finish_row d r))
unfolding put_rows length_string
put_rows_one d r (file, total) h =
    let none_there : (d.var_digit == 0) ≡ true = ground arith in
    rw none_there (ap (λ k. (file ++ finish_row d r, total + k)) (omega arith))

if_then :
    {A : Type 0} (b : Bool) (x y z : A)
    → (b ≡ true → x ≡ y)
    → (if b then x else z) ≡ (if b then y else z)
if_then true x y z h = h refl
if_then false x y z h = refl

-- With a delimiter that `oMakeVarDelimiter` has made, `vPreRepeatAction` writes and counts nothing when the
-- names are not embedded, and otherwise just what unloading one row does whose enclosed values are the
-- names: such a file has no length fields.
pub pre_repeat-post_bulk :
    (escaped hexdecm : Searcher) (tokens : Bytes → List Bytes) (conf : Settings) (d : Delimiter)
    (names : List Bytes) (s : Bytes × ℕ)
    → make_var_delimiter escaped hexdecm tokens conf ≡ ok (some d)
    → pre_repeat d names s ≡ (if d.embed_column_names then post_bulk d 1 (name_row names) s else s)
unfolding pre_repeat put_column_names post_bulk
pre_repeat-post_bulk escaped hexdecm tokens conf d names s made =
    if_then d.embed_column_names _ _ s λ e.
      let short = embedded_without_length escaped hexdecm tokens conf d made e in
      sym (
        ap (λ rows. put_rows d rows s) (fill_columns-name_row d names [])
        ∙ put_rows_one d (col_names_list d [] names) s short)
