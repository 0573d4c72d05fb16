-- ===== src/Ctrl/Grammar.antt =====
-- lib/sql/cCtrlFile.cpp: the constructor and `sGetGrammar`, and lib/sql/occi/cUnloader.cpp:
-- `sGetFieldsListForCtrl` and the text that `vPutGrammerToCtrlFile` writes.
use xtru.Common.{
  ltb, ◌==◌, if◌then◌else◌, Bytes, codes, Result, guard, ◌>>◌, runtime_error, aborted, err, ok,
  is_empty, ℕ, Bool, false, not, ◌||◌, Option, none, some, List, [], ◌∷◌, ◌++◌,
}
use xtru.Common.Decimal.{decimal}
use xtru.Format.Director.{ℤ, pos, negsuc}
use xtru.Delimiter.Fields.{Delimiter}

-- What the constructor reads of the configuration.
pub record Conf : Type 0 where
  pub charset_id : ℤ
  pub no_bom : Bool
  pub usualpath : Bool
  pub recoverable : Bool

-- `cCtrlFileImpl`; the two groups of `oMatch_` are fields.
pub record CtrlFile : Type 0 where
  pub conf : Conf
  pub file_name : Bytes
  pub schema : Bytes
  pub table : Bytes
  pub partition_name : Bytes
  pub delim : Delimiter
  pub num_longs : ℕ

abbrev pub make_matched :
    Conf → Delimiter → Bytes → Bytes → ℕ → Option (Bytes × Bytes) → Result CtrlFile
make_matched conf d file part longs none = err runtime_error
make_matched conf d file part longs (some (schema, table)) = ok (record {
  conf = conf;
  file_name = file;
  schema = schema;
  table = table;
  partition_name = part;
  delim = d;
  num_longs = longs;
})

-- `BOOST_ASSERT(iNumLongs >= 0)`
abbrev pub with_longs : ℤ → (ℕ → Result CtrlFile) → Result CtrlFile
with_longs (pos n) next = next n
with_longs (negsuc n) next = err aborted

-- The constructor. `match_tag` is what `regex_match` finds with `regTagName_`: the groups `schema`, empty
-- when it did not match, and `table`.
unfoldable pub make_ctrl_file :
    (Bytes → Option (Bytes × Bytes))
    → Conf
    → Delimiter
    → Bytes
    → Bytes
    → Bytes
    → ℤ
    → Result CtrlFile
make_ctrl_file match_tag conf d file tag part longs =
    guard (not (is_empty file)) aborted
    >> (guard (not (is_empty tag)) aborted
        >> with_longs longs (λ n. make_matched conf d file part n (match_tag tag)))

-- `row_sep`
unfoldable pub row_sep : Delimiter → Bytes
row_sep d =
    if d.var_digit == 0
    then codes "STR " ++ d.ctrl_item.row_separator
    else codes "VAR " ++ decimal d.var_digit

-- `part_clause`
unfoldable pub part_clause : Bytes → Bytes
part_clause [] = []
part_clause (c ∷ s) = codes " PARTITION(\"" ++ (c ∷ s ++ codes "\")")

-- `iCharsetId_ == 873 || iCharsetId_ == 871`
abbrev pub is_utf8 : ℤ → Bool
is_utf8 (pos n) = (n == 873) || (n == 871)
is_utf8 (negsuc n) = false

-- `charset_clause`
unfoldable pub charset_clause : Conf → Bytes
charset_clause conf =
    if is_utf8 conf.charset_id
    then codes " CHARACTERSET AL32UTF8 BYTEORDERMARK"
      ++ (if conf.no_bom then codes " NOCHECK" else codes " CHECK")
    else []

-- The first line, less its end.
unfoldable pub load_line : CtrlFile → Bytes
load_line f =
    (if f.conf.usualpath || (f.conf.recoverable || ltb 0 f.num_longs)
      then []
      else codes "UNRECOVERABLE ")
    ++ (codes "LOAD" ++ charset_clause f.conf)

-- The second line; `print_path` is how the library prints a path.
unfoldable pub infile_line : (Bytes → Bytes) → CtrlFile → Bytes
infile_line print_path f =
    (codes "INFILE " ++ (print_path f.file_name ++ codes " "))
    ++ (b'"' ∷ (row_sep f.delim ++ codes "\""))

-- The third line.
unfoldable pub into_line : CtrlFile → Bytes
into_line f =
    codes "INTO TABLE \""
    ++ ((if is_empty f.schema then [] else f.schema ++ codes "\".\"")
        ++ (f.table ++ (codes "\"" ++ part_clause f.partition_name)))

-- The last lines.
unfoldable pub fields_lines : Delimiter → Bytes
fields_lines d =
    codes "TRUNCATE REENABLE FIELDS TERMINATED BY "
    ++ (d.ctrl_item.col_separator
        ++ (10 ∷ (if d.end_term then [] else codes "TRAILING NULLCOLS" ++ (10 ∷ []))))

-- `sGetGrammar`
unfoldable pub get_grammar : (Bytes → Bytes) → CtrlFile → Bytes
get_grammar print_path f =
    load_line f
    ++ (10 ∷ (infile_line print_path f ++ (10 ∷ (into_line f ++ (10 ∷ fields_lines f.delim)))))

-- The loop of `sGetFieldsListForCtrl`, on the texts of the fields.
abbrev pub fields_loop : Bytes → List Bytes → Bytes
fields_loop front [] = []
fields_loop front (t ∷ ts) = front ++ (codes "  " ++ (t ++ (10 ∷ fields_loop (codes ",") ts)))

-- `sGetFieldsListForCtrl`
unfoldable pub fields_list : List Bytes → Bytes
fields_list ts = fields_loop (codes "(") ts ++ (if is_empty ts then [] else codes ")" ++ (10 ∷ []))

-- What `vPutGrammerToCtrlFile` writes.
unfoldable pub put_grammar : (Bytes → Bytes) → CtrlFile → List Bytes → Bytes
put_grammar print_path f fields = get_grammar print_path f ++ fields_list fields
