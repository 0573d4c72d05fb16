-- ===== src/Ctrl/Reads.antt =====
-- lib/sql/cCtrlFile.cpp: a reader of a control file finds in it how the data file is divided into records,
-- and reads with that the rows that lib/sql/occi/cUnloader.cpp writes.
use xtru.Common.{
  ltb, ◌==◌, if◌then◌else◌, ==_refl, Bytes, codes, length, drop, All, All-append, starts_with, ℕ,
  suc, ◌^◌, ◌≤◌, ◌<◌, ◌≡◌, refl, ap, ◌∙◌, Bool, true, false, not, ◌&&◌, ◌||◌, Option, none, some,
  List, [], ◌∷◌, ◌++◌, map, reverse, append_assoc, arith,
}
use mathlib.Core.List.{reverse-append, reverse-cons, reverse-reverse}
use xtru.Common.Decimal.{decimal, number_behind, number-decimal, All-decimal}
use xtru.Delimiter.Fields.{Delimiter, finish_row, put_rows}
use xtru.Delimiter.Records.{read_records, put_rows-read}
use xtru.Ctrl.Grammar.{
  Conf, CtrlFile, is_utf8, row_sep, charset_clause, load_line, infile_line, into_line, fields_lines,
  get_grammar, fields_list, put_grammar,
}

-- The reader: the text up to a byte, and what follows that byte.
unfoldable up_to : ℕ → Bytes → Bytes
up_to end_mark [] = []
up_to end_mark (c ∷ s) = let rest = up_to end_mark s in if c == end_mark then [] else c ∷ rest

unfoldable behind : ℕ → Bytes → Bytes
behind end_mark [] = []
behind end_mark (c ∷ s) = let rest = behind end_mark s in if c == end_mark then s else rest

-- The clause of the second line, between its last two quotation marks.
unfoldable pub record_clause : Bytes → Bytes
unfolding up_to behind
record_clause s = reverse (up_to b'"' (drop 1 (reverse (up_to 10 (behind 10 s)))))

-- The records of a data file by such a clause; only the variable format is read here.
unfoldable pub read_by : Bytes → ℕ → Bytes → Option (List Bytes)
read_by clause n file =
    if starts_with (codes "VAR ") clause
    then some (read_records n (number_behind 0 (drop 4 clause)) file)
    else none

abbrev pub Without : ℕ → Bytes → Type 0
Without end_mark = All (λ c. (c == end_mark) ≡ false)

up_to-append :
    (end_mark : ℕ) (s rest : Bytes) → Without end_mark s → up_to end_mark (s ++ end_mark ∷ rest) ≡ s
unfolding up_to
up_to-append end_mark [] rest h = rw (==_refl end_mark) refl
up_to-append end_mark (c ∷ s) rest h = rw (h.0, up_to-append end_mark s rest h.1) refl

behind-append :
    (end_mark : ℕ) (s rest : Bytes)
    → Without end_mark s
    → behind end_mark (s ++ end_mark ∷ rest) ≡ rest
unfolding behind
behind-append end_mark [] rest h = rw (==_refl end_mark) refl
behind-append end_mark (c ∷ s) rest h = rw (h.0, behind-append end_mark s rest h.1) refl

reverse-Without : (end_mark : ℕ) (s : Bytes) → Without end_mark s → Without end_mark (reverse s)
reverse-Without end_mark [] h = tt
reverse-Without end_mark (c ∷ s) h = rw (reverse-cons c s) (
    All-append (λ k. (k == end_mark) ≡ false) (reverse s) (c ∷ []) (reverse-Without end_mark s h.1)
      (h.0, tt))

-- A text in quotation marks at the end of a line.
quoted_lem :
    (front q : Bytes)
    → Without b'"' q
    → reverse (up_to b'"' (drop 1 (reverse (front ++ (b'"' ∷ (q ++ codes "\"")))))) ≡ q
quoted_lem front q h =
    let turned : reverse (front ++ (b'"' ∷ (q ++ codes "\"")))
        ≡ b'"' ∷ (reverse q ++ (b'"' ∷ reverse front)) =
      rw
        (
          reverse-append front (b'"' ∷ (q ++ codes "\"")),
          reverse-cons b'"' (q ++ codes "\""),
          reverse-append q (codes "\""),
        )
        (ap (◌∷◌ b'"') (append_assoc (reverse q) (codes "\"") (reverse front))) in
    rw (turned, up_to-append b'"' (reverse q) (reverse front) (reverse-Without b'"' q h))
      (reverse-reverse q)

decimal-Without : (end_mark n : ℕ) → end_mark < b'0' → Without end_mark (decimal n)
decimal-Without end_mark n h = All-decimal (λ c. (c == end_mark) ≡ false) (λ k lt. ground arith) n

row_sep_lem :
    (d : Delimiter) (k : ℕ) → d.var_digit ≡ suc k → row_sep d ≡ codes "VAR " ++ decimal (suc k)
unfolding row_sep
row_sep_lem d k h = rw h (ground arith)

lacks : ℕ → Bytes → Bool
lacks end_mark [] = true
lacks end_mark (c ∷ s) = not (c == end_mark) && lacks end_mark s

-- For a text that is written out.
by_test : (end_mark : ℕ) (s : Bytes) → lacks end_mark s ≡ true → Without end_mark s
unfolding lacks
by_test end_mark [] h = tt
by_test end_mark (c ∷ s) h = (ground arith, by_test end_mark s (ground arith))

join :
    (end_mark : ℕ) (s t : Bytes)
    → Without end_mark s
    → Without end_mark t
    → Without end_mark (s ++ t)
join end_mark = All-append (λ c. (c == end_mark) ≡ false)

either :
    (end_mark : ℕ) (b : Bool) (s t : Bytes)
    → Without end_mark s
    → Without end_mark t
    → Without end_mark (if b then s else t)
either end_mark true s t h e = h
either end_mark false s t h e = e

charset_clause-Without : (conf : Conf) → Without 10 (charset_clause conf)
unfolding charset_clause lacks
charset_clause-Without conf =
    either 10 (is_utf8 conf.charset_id) _ []
      (join 10 (codes " CHARACTERSET AL32UTF8 BYTEORDERMARK") _
        (by_test 10 (codes " CHARACTERSET AL32UTF8 BYTEORDERMARK") refl)
        (either 10 conf.no_bom (codes " NOCHECK") (codes " CHECK")
          (by_test 10 (codes " NOCHECK") refl) (by_test 10 (codes " CHECK") refl)))
      tt

load_line-Without : (f : CtrlFile) → Without 10 (load_line f)
unfolding load_line lacks
load_line-Without f =
    join 10
      (if f.conf.usualpath || (f.conf.recoverable || ltb 0 f.num_longs)
        then []
        else codes "UNRECOVERABLE ")
      (codes "LOAD" ++ charset_clause f.conf)
      (either 10 _ [] (codes "UNRECOVERABLE ") tt (by_test 10 (codes "UNRECOVERABLE ") refl))
      (join 10 (codes "LOAD") (charset_clause f.conf) (by_test 10 (codes "LOAD") refl)
        (charset_clause-Without f.conf))

infile_line-Without :
    (print_path : Bytes → Bytes) (f : CtrlFile)
    → Without 10 (print_path f.file_name)
    → Without 10 (row_sep f.delim)
    → Without 10 (infile_line print_path f)
unfolding infile_line lacks
infile_line-Without print_path f h e =
    join 10 (codes "INFILE " ++ (print_path f.file_name ++ codes " "))
      (b'"' ∷ (row_sep f.delim ++ codes "\""))
      (join 10 (codes "INFILE ") (print_path f.file_name ++ codes " ")
        (by_test 10 (codes "INFILE ") refl)
        (join 10 (print_path f.file_name) (codes " ") h (by_test 10 (codes " ") refl)))
      (refl, join 10 (row_sep f.delim) (codes "\"") e (by_test 10 (codes "\"") refl))

row_sep-Without :
    (end_mark : ℕ) (d : Delimiter) (k : ℕ)
    → end_mark < b'0'
    → lacks end_mark (codes "VAR ") ≡ true
    → d.var_digit ≡ suc k
    → Without end_mark (row_sep d)
row_sep-Without end_mark d k lt h e = rw (row_sep_lem d k e) (
    join end_mark (codes "VAR ") (decimal (suc k)) (by_test end_mark (codes "VAR ") h)
      (decimal-Without end_mark (suc k) lt))

-- The second line of what is written.
second_line :
    (print_path : Bytes → Bytes) (f : CtrlFile) (fields : List Bytes)
    → Without 10 (infile_line print_path f)
    → up_to 10 (behind 10 (put_grammar print_path f fields)) ≡ infile_line print_path f
unfolding put_grammar get_grammar
second_line print_path f fields h =
    let rest = into_line f ++ (10 ∷ fields_lines f.delim) in
    rw
      (
        append_assoc (load_line f) (10 ∷ (infile_line print_path f ++ (10 ∷ rest)))
            (fields_list fields),
        behind-append 10 (load_line f)
            ((infile_line print_path f ++ (10 ∷ rest)) ++ fields_list fields) (load_line-Without f),
        append_assoc (infile_line print_path f) (10 ∷ rest) (fields_list fields),
      )
      (up_to-append 10 (infile_line print_path f) (rest ++ fields_list fields) h)

-- The clause in it.
record_clause-put_grammar :
    (print_path : Bytes → Bytes) (f : CtrlFile) (fields : List Bytes) (k : ℕ)
    → Without 10 (print_path f.file_name)
    → f.delim.var_digit ≡ suc k
    → record_clause (put_grammar print_path f fields) ≡ row_sep f.delim
unfolding record_clause infile_line lacks
record_clause-put_grammar print_path f fields k h e =
    let one_line =
      infile_line-Without print_path f h (row_sep-Without 10 f.delim k (omega arith) refl e) in
    ap (λ s. reverse (up_to b'"' (drop 1 (reverse s)))) (second_line print_path f fields one_line)
    ∙ quoted_lem (codes "INFILE " ++ (print_path f.file_name ++ codes " ")) (row_sep f.delim)
        (row_sep-Without b'"' f.delim k (omega arith) refl e)

read_by-row_sep :
    (d : Delimiter) (k n : ℕ) (file : Bytes)
    → d.var_digit ≡ suc k
    → read_by (row_sep d) n file ≡ some (read_records n (suc k) file)
unfolding read_by
read_by-row_sep d k n file e =
    rw (row_sep_lem d k e) (ap (λ m. some (read_records n m file)) (number-decimal (suc k)))

-- When the library prints the path on one line, and the length field has a digit, a reader of the control
-- file finds the record clause in it, and reads by that clause from what `put_rows` writes to an empty file
-- exactly the finished rows, when each has a length of at most as many digits as the field.
pub put_grammar-read :
    (print_path : Bytes → Bytes) (f : CtrlFile) (fields : List Bytes) (k n : ℕ) (rows : List Bytes)
    → Without 10 (print_path f.file_name)
    → f.delim.var_digit ≡ suc k
    → All (λ r. length (finish_row f.delim r) < 10 ^ suc k) rows
    → length rows ≤ n
    → read_by (record_clause (put_grammar print_path f fields)) n (put_rows f.delim rows ([], 0)).0
      ≡ some (map (finish_row f.delim) rows)
put_grammar-read print_path f fields k n rows h e short le =
    rw (record_clause-put_grammar print_path f fields k h e) (
      read_by-row_sep f.delim k n (put_rows f.delim rows ([], 0)).0 e
      ∙ ap some (put_rows-read f.delim k n rows e short le))
