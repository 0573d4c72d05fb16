-- ===== src/Stream/Macros.antt =====
-- lib/nsStreamLocator/nsStreamLocator.cpp: `oMacroMap_` with its actions, `oSchemeMap_`, and
-- `sFormatDateTime`.
use xtru.Common.{
  ltb, ◌==◌, if◌then◌else◌, Bytes, codes, same, length, concat, Result, guard, ◌>>◌, runtime_error,
  aborted, err, ok, is_empty, ℕ, Bool, Option, none, some, List, [], ◌∷◌, ◌++◌, map,
}

-- `tExtType`, with the number of its values as its last one.
pub data ExtType : Type 0 where
  ext_data ext_ctrl ext_clob ext_blob num_ext_type : ExtType

-- `tExts`, an array of four texts.
pub record Exts : Type 0 where
  pub of_data : Bytes
  pub of_ctrl : Bytes
  pub of_clob : Bytes
  pub of_blob : Bytes

-- `tInitParams`
pub record InitParams : Type 0 where
  pub owner : Bytes
  pub table_name : Bytes
  pub partition_name : Bytes

-- The static variables that `vInitialize` sets; `stdout` is the 32 bits of `iStdout_` as a number.
pub record Settings : Type 0 where
  pub specified : Bytes
  pub stdout : ℕ
  pub output : Bytes
  pub exts : Exts
  pub env_map : List (Bytes × Bytes)
  pub suppress_ctrlf : Bool

-- A match of `regMacroSymbolExpr`: where it begins, its length, and its two named groups.
pub record Match : Type 0 where
  pub position : ℕ
  pub size : ℕ
  pub var : Bytes
  pub opt : Bytes

-- A match in the pattern of a date or of a time, by the group that matched: `c`, `l` or `o`.
pub data Piece : Type 0 where
  conversion literal other : Bytes → Piece

-- What the library's regular expressions find: `regex_match` with `regLocationExpr` (scheme and
-- location), with `regIdentifierExpr` and with the expression for a line of the environment (key and
-- value), and all matches of the iterators.
pub record Engine : Type 0 where
  pub match_location : Bytes → Option (Bytes × Bytes)
  pub find_macros : Bytes → List Match
  pub is_identifier : Bytes → Bool
  pub match_env : Bytes → Option (Bytes × Bytes)
  pub find_date : Bytes → List Piece
  pub find_time : Bytes → List Piece

-- What the system says: of a path, by `printenv` (`none` when it is not started), and by `strftime` for
-- the present time (`none` for 0).
pub record Platform : Type 0 where
  pub exists : Bytes → Bool
  pub is_directory : Bytes → Bool
  pub printenv : Option (List Bytes)
  pub strftime : Bytes → Option Bytes

-- `find` of a map.
abbrev pub find_key : List (Bytes × Bytes) → Bytes → Option Bytes
find_key [] key = none
find_key (kv ∷ kvs) key = if same kv.0 key then some kv.1 else find_key kvs key

-- The maps of the macros `D` and `W`.
abbrev pub date_map : List (Bytes × Bytes)
date_map =
    (codes "d", codes "%-d")
    ∷ (codes "dd", codes "%d")
    ∷ (codes "ddd", codes "%a")
    ∷ (codes "dddd", codes "%A")
    ∷ (codes "M", codes "%-m")
    ∷ (codes "MM", codes "%m")
    ∷ (codes "MMM", codes "%b")
    ∷ (codes "MMMM", codes "%B")
    ∷ (codes "y", codes "%-y")
    ∷ (codes "yy", codes "%y")
    ∷ (codes "yyyy", codes "%Y")
    ∷ (codes "gg", codes "%EC")
    ∷ (codes "%", codes "%%")
    ∷ []

abbrev pub time_map : List (Bytes × Bytes)
time_map =
    (codes "h", codes "%-I")
    ∷ (codes "hh", codes "%I")
    ∷ (codes "H", codes "%-H")
    ∷ (codes "HH", codes "%H")
    ∷ (codes "m", codes "%-M")
    ∷ (codes "mm", codes "%M")
    ∷ (codes "s", codes "%-S")
    ∷ (codes "ss", codes "%S")
    ∷ (codes "t", codes "%p")
    ∷ (codes "tt", codes "%p")
    ∷ (codes "%", codes "%%")
    ∷ []

abbrev or_else : Option Bytes → Bytes → Bytes
or_else none s = s
or_else (some t) s = t

-- `funcs`. The first byte of an empty string is read as 0.
abbrev pub format_piece : List (Bytes × Bytes) → Piece → Bytes
format_piece cmap (conversion s) = or_else (find_key cmap s) s
format_piece cmap (literal []) = codes "'"
format_piece cmap (literal (c ∷ s)) = if c == 0 then codes "'" else c ∷ s
format_piece cmap (other s) = s

-- `sFormatDateTime`. `strftime` reads `fmt.str().c_str()`, which ends at the first byte 0.
abbrev until_zero : Bytes → Bytes
until_zero [] = []
until_zero (c ∷ s) = let rest = until_zero s in if c == 0 then [] else c ∷ rest

unfoldable pub format_date_time : Platform → List (Bytes × Bytes) → List Piece → Bytes
format_date_time w cmap pieces =
    or_else (w.strftime (until_zero (concat (map (format_piece cmap) pieces)))) []

-- The keys of `oMacroMap_`.
pub data Macro : Type 0 where
  of_output of_table of_partition of_composite of_data_dir of_owner of_ext of_date of_time of_env :
      Macro

abbrev pub macro_of : Bytes → Option Macro
macro_of var =
    if same var (codes "O")
    then some of_output
    else if same var (codes "T")
    then some of_table
    else if same var (codes "P")
    then some of_partition
    else if same var (codes "C")
    then some of_composite
    else if same var (codes "A")
    then some of_data_dir
    else if same var (codes "I")
    then some of_owner
    else if same var (codes "X")
    then some of_ext
    else if same var (codes "D")
    then some of_date
    else if same var (codes "W")
    then some of_time
    else if same var (codes "E")
    then some of_env
    else none

-- `oSchemeMap_`, by the class that is constructed.
pub data Generator : Type 0 where
  file_system local_process named_pipe : Generator

abbrev pub scheme_of : Bytes → Option Generator
scheme_of scheme =
    if same scheme (codes "file")
    then some file_system
    else if same scheme (codes "ipc_pipe")
    then some local_process
    else if same scheme (codes "named_pipe")
    then some named_pipe
    else none

-- `oExts_[iExtType]`; behind the array the assertion of its library fails.
abbrev pub ext_of : Exts → ExtType → Result Bytes
ext_of exts ext_data = ok exts.of_data
ext_of exts ext_ctrl = ok exts.of_ctrl
ext_of exts ext_clob = ok exts.of_clob
ext_of exts ext_blob = ok exts.of_blob
ext_of exts num_ext_type = err aborted

-- The action of the macro `E`.
abbrev pub env_value : Option Bytes → Result Bytes
env_value none = ok []
env_value (some v) = guard (ltb (length v) 8192) runtime_error >> ok v

module _ (e : Engine) (w : Platform) (s : Settings) where
  -- The actions of `oMacroMap_`.
  unfoldable pub macro_value : Macro → InitParams → Bytes → ExtType → Bytes → Result Bytes
  unfolding format_date_time
  macro_value of_output p option x dir = ok s.output
  macro_value of_table p option x dir = ok p.table_name
  macro_value of_partition p option x dir =
      ok (if is_empty p.partition_name then codes "np" else p.partition_name)
  macro_value of_composite p option x dir = ok (
      if is_empty p.partition_name
      then p.table_name
      else p.table_name ++ (codes "_" ++ p.partition_name))
  macro_value of_data_dir p option x dir = ok dir
  macro_value of_owner p option x dir = ok p.owner
  macro_value of_ext p option x dir = ext_of s.exts x
  macro_value of_date p option x dir = ok (format_date_time w date_map (e.find_date option))
  macro_value of_time p option x dir = ok (format_date_time w time_map (e.find_time option))
  macro_value of_env p option x dir = env_value (find_key s.env_map option)
