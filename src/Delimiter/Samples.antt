-- ===== src/Delimiter/Samples.antt =====
-- The theorems on delimiters and data files at concrete inputs, and tests of the definitions.
use xtru.Common.{
  if◌then◌else◌, Bytes, codes, length, All, ok, find, ◌^◌, ◌<◌, ◌≡◌, refl, true, false, none, some,
  List, [], ◌∷◌, map, arith,
}
use xtru.Delimiter.Literal.{quoted, to_ctrl, conv_literal, is_xdigit}
use xtru.Delimiter.Forms.{read_ctrl, read_text, IsForm, hexes}
use xtru.Delimiter.Agree.{Agrees, conv_literal-Agrees, conv_literal_total}
use xtru.Delimiter.Search.{
  find_escape, find_hex_byte, find_escape-Finds, find_hex_byte-Finds, search_for,
}
use xtru.Delimiter.Fields.{
  make_item, enclose, last_separator, Delimiter, Item, Value, Kind, enclosed, bare, content,
  make_delimiter, convert, enclosed_by_clause, finish_row, put_rows, post_bulk,
}
use xtru.Delimiter.Records.{read_records, put_rows-read}
use xtru.Delimiter.Configured.{
  Settings, make_var_delimiter, separate_to_delimiters, col_names_list, put_column_names, name_row,
  pre_repeat, pre_repeat-post_bulk,
}
use xtru.Delimiter.Rows.{columns, build}
use xtru.Delimiter.Unload.{Clean, read_row, post_bulk_roundtrip}

hex-IsForm : IsForm (hexes ((b'0', b'd') ∷ (b'0', b'A') ∷ []))
unfolding is_xdigit
hex-IsForm = (omega arith, ((refl, refl), ((refl, refl), tt)))

conv_literal-Agrees_example :
    Agrees find_escape find_hex_byte (hexes ((b'0', b'd') ∷ (b'0', b'A') ∷ []))
conv_literal-Agrees_example =
    conv_literal-Agrees find_escape find_hex_byte find_escape-Finds find_hex_byte-Finds
      (hexes ((b'0', b'd') ∷ (b'0', b'A') ∷ [])) hex-IsForm

conv_literal_total_example :
    (out : Bytes) × (conv_literal find_escape find_hex_byte to_ctrl (codes "\\t\\n") ≡ some out)
conv_literal_total_example =
    conv_literal_total find_escape find_hex_byte find_escape-Finds find_hex_byte-Finds to_ctrl
      (codes "\\t\\n")

tab_new_line :
    conv_literal find_escape find_hex_byte to_ctrl (codes "\\t\\n") ≡ some (codes "X'090A'")
unfolding conv_literal search_for
tab_new_line = refl

-- A plain quotation mark is not written twice.
quote_unread : read_ctrl (quoted (codes "'")) ≡ none
unfolding read_ctrl read_text
quote_unread = refl

quote_written :
    conv_literal find_escape find_hex_byte to_ctrl (codes "'") ≡ some (quoted (codes "'"))
unfolding conv_literal search_for
quote_written = refl

abbrev quotes : Item
quotes = record {
  row_separator = 10 ∷ [];
  col_separator = codes ",";
  enclosure1 = codes "\"";
  enclosure2 = [];
}

abbrev sample : Delimiter
sample = record {
  end_term = false;
  var_digit = 3;
  is_explicit = false;
  embed_column_names = false;
  data_item = quotes;
  ctrl_item = quotes;
}

abbrev row_a : List Value
row_a =
    record { text = codes "a,b"; not_null = true }
    ∷ record { text = codes "12"; not_null = true }
    ∷ []

abbrev row_b : List Value
row_b = record { text = []; not_null = false } ∷ record { text = codes "7"; not_null = true } ∷ []

abbrev kinds : List Kind
kinds = enclosed ∷ bare ∷ []

sample_file :
    post_bulk sample 2 (columns kinds (row_a ∷ row_b ∷ [])) ([], 0)
    ≡ (codes "009\"a,b\",12\n005\"\",7\n", 20)
unfolding post_bulk
sample_file = refl

short_rows : All (λ r. length (finish_row sample r) < 10 ^ 3) (codes "x" ∷ codes "yz" ∷ [])
unfolding finish_row
short_rows = (omega arith, (omega arith, tt))

put_rows-read_example :
    read_records 2 3 (put_rows sample (codes "x" ∷ codes "yz" ∷ []) ([], 0)).0
    ≡ map (finish_row sample) (codes "x" ∷ codes "yz" ∷ [])
put_rows-read_example =
    put_rows-read sample 2 2 (codes "x" ∷ codes "yz" ∷ []) refl short_rows (omega arith)

Clean-rows : All (Clean sample kinds) (row_a ∷ row_b ∷ [])
unfolding find last_separator
Clean-rows = ((refl, (refl, tt)), ((refl, (refl, tt)), tt))

short_built :
    All (λ r. length (finish_row sample (build sample kinds r [])) < 10 ^ 3) (row_a ∷ row_b ∷ [])
unfolding finish_row build convert
short_built = (omega arith, (omega arith, tt))

post_bulk_roundtrip_example :
    map
      (read_row sample kinds)
      (read_records 2 3 (post_bulk sample 2 (columns kinds (row_a ∷ row_b ∷ [])) ([], 0)).0)
    ≡ map (λ r. some (map content r)) (row_a ∷ row_b ∷ [])
post_bulk_roundtrip_example =
    post_bulk_roundtrip sample 2 2 enclosed (bare ∷ []) (row_a ∷ row_b ∷ []) refl (refl, (refl, tt))
      Clean-rows short_built (omega arith)

make_sample :
    make_delimiter find_escape find_hex_byte
      (codes "0x0a")
      (codes ",")
      (codes "\"")
      []
      false
      3
      false
    ≡ some (record sample {
      ctrl_item = record {
        row_separator = codes "X'0A'";
        col_separator = codes "','";
        enclosure1 = codes "'\"'";
        enclosure2 = codes "''";
      };
    })
unfolding make_delimiter search_for is_xdigit
make_sample = refl

clause : enclosed_by_clause (record sample { is_explicit = true }) ≡ codes "ENCLOSED BY \" AND "
unfolding enclosed_by_clause
clause = refl

abbrev with_names : Settings
with_names = record {
  rowseparator = codes "\\n";
  embed_column_name = codes ",:\":";
  terminator = codes "\\t";
  encloser = [];
  encloser2 = [];
  endterm = true;
  reclength = 4;
}

abbrev three : Bytes → List Bytes
three s = codes "," ∷ codes "\"" ∷ [] ∷ []

abbrev headed : Delimiter
headed = record {
  end_term = false;
  var_digit = 0;
  is_explicit = false;
  embed_column_names = true;
  data_item = quotes;
  ctrl_item = record {
    row_separator = codes "X'0A'";
    col_separator = codes "','";
    enclosure1 = codes "'\"'";
    enclosure2 = codes "''";
  };
}

headed_made : make_var_delimiter find_escape find_hex_byte three with_names ≡ ok (some headed)
unfolding make_var_delimiter separate_to_delimiters make_delimiter make_item conv_literal search_for
headed_made = refl

pre_repeat-post_bulk_example : pre_repeat headed (codes "ID" ∷ codes "NAME" ∷ []) ([], 0) ≡ (
    if true
    then post_bulk headed 1 (name_row (codes "ID" ∷ codes "NAME" ∷ [])) ([], 0)
    else ([], 0))
pre_repeat-post_bulk_example =
    pre_repeat-post_bulk find_escape find_hex_byte three with_names headed
      (codes "ID" ∷ codes "NAME" ∷ []) ([], 0) headed_made

names_line :
    pre_repeat headed (codes "ID" ∷ codes "NAME" ∷ []) (codes "x", 1)
    ≡ (codes "x\"ID\",\"NAME\"\n", 13)
unfolding pre_repeat put_column_names col_names_list finish_row enclose last_separator
names_line = refl
