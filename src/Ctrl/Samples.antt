-- ===== src/Ctrl/Samples.antt =====
-- lib/sql/cCtrlFile.cpp: a control file, and how it is read.
use xtru.Common.{
  Bytes, codes, length, All, runtime_error, err, ok, ◌^◌, ◌<◌, ◌≡◌, refl, true, false, none, some,
  [], ◌∷◌, ◌++◌, map, arith,
}
use xtru.Common.Decimal.{decimal}
use xtru.Format.Director.{pos}
use xtru.Delimiter.Fields.{Delimiter, Item, finish_row, put_rows, last_separator}
use xtru.Ctrl.Grammar.{
  Conf, CtrlFile, make_ctrl_file, charset_clause, fields_list, fields_lines, get_grammar,
  infile_line, into_line, load_line, part_clause, put_grammar, row_sep,
}
use xtru.Ctrl.Reads.{record_clause, read_by, put_grammar-read}

abbrev data_item : Item
data_item = record {
  row_separator = 10 ∷ [];
  col_separator = codes ",";
  enclosure1 = codes "\"";
  enclosure2 = [];
}

abbrev ctrl_item : Item
ctrl_item = record {
  row_separator = codes "x'0A'";
  col_separator = codes "','";
  enclosure1 = codes "'\"'";
  enclosure2 = [];
}

abbrev delim : Delimiter
delim = record {
  end_term = false;
  var_digit = 3;
  is_explicit = false;
  embed_column_names = false;
  data_item = data_item;
  ctrl_item = ctrl_item;
}

abbrev conf : Conf
conf = record { charset_id = pos 873; no_bom = true; usualpath = false; recoverable = false }

abbrev emp : CtrlFile
emp = record {
  conf = conf;
  file_name = codes "EMP.dat";
  schema = codes "SCOTT";
  table = codes "EMP";
  partition_name = [];
  delim = delim;
  num_longs = 0;
}

abbrev quoted : Bytes → Bytes
quoted s = b'"' ∷ (s ++ codes "\"")

emp_made :
    make_ctrl_file
      (λ s. some (codes "SCOTT", codes "EMP"))
      conf
      delim
      (codes "EMP.dat")
      (codes "SCOTT.EMP")
      []
      (pos 0)
    ≡ ok emp
unfolding make_ctrl_file
emp_made = refl

no_tag :
    make_ctrl_file (λ s. none) conf delim (codes "EMP.dat") (codes "A$B.C") [] (pos 0)
    ≡ err runtime_error
unfolding make_ctrl_file
no_tag = refl

emp_grammar :
    put_grammar quoted emp (codes "\"ENAME\" CHAR" ∷ codes "\"SAL\" CHAR" ∷ [])
    ≡ codes
        "UNRECOVERABLE LOAD CHARACTERSET AL32UTF8 BYTEORDERMARK NOCHECK\nINFILE \"EMP.dat\" \"VAR 3\"\nINTO TABLE \"SCOTT\".\"EMP\"\nTRUNCATE REENABLE FIELDS TERMINATED BY ','\nTRAILING NULLCOLS\n(  \"ENAME\" CHAR\n,  \"SAL\" CHAR\n)\n"
unfolding put_grammar get_grammar fields_list load_line infile_line into_line fields_lines row_sep
    charset_clause part_clause decimal
emp_grammar = refl

emp_clause : record_clause (put_grammar quoted emp []) ≡ codes "VAR 3"
unfolding record_clause put_grammar get_grammar fields_list load_line infile_line into_line
    fields_lines row_sep charset_clause part_clause decimal
emp_clause = refl

emp_partition :
    into_line (record emp { schema = []; partition_name = codes "P1" })
    ≡ codes "INTO TABLE \"EMP\" PARTITION(\"P1\")"
unfolding into_line part_clause
emp_partition = refl

short : All (λ r. length (finish_row delim r) < 10 ^ 3) (codes "x" ∷ codes "yz" ∷ [])
unfolding finish_row last_separator
short = (omega arith, (omega arith, tt))

put_grammar-read_example :
    read_by
      (record_clause (put_grammar quoted emp (codes "\"ENAME\" CHAR" ∷ [])))
      2
      (put_rows delim (codes "x" ∷ codes "yz" ∷ []) ([], 0)).0
    ≡ some (map (finish_row delim) (codes "x" ∷ codes "yz" ∷ []))
put_grammar-read_example =
    put_grammar-read quoted emp (codes "\"ENAME\" CHAR" ∷ []) 2 2 (codes "x" ∷ codes "yz" ∷ [])
      (refl, (refl, (refl, (refl, (refl, (refl, (refl, (refl, (refl, tt))))))))) refl short
      (omega arith)
