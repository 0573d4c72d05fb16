-- ===== src/Mpx/Lines.antt =====
-- app/mpx/cAppLocal.cpp: the place-holders of a command line, and its program name and arguments.
use xtru.Common.{
  leb, ◌==◌, if◌then◌else◌, Bytes, length, take, drop, Result, fault, ok, err, find, find_from, ℕ,
  zero, suc, ◌+◌, ◌-◌, Bool, ◌&&◌, ◌||◌, Option, none, some, [], ◌∷◌, ◌++◌, map,
}
use mathlib.Core.Option
use xtru.Text.Trim.{trim, white_space}

abbrev pub is_decimal : ℕ → Bool
is_decimal c = leb b'0' c && leb c b'9'

abbrev pub is_alnum : ℕ → Bool
is_alnum c =
    is_decimal c
    || ((leb b'A' c && leb c b'Z') || ((leb b'a' c && leb c b'z') || ((c == b'_') || (c == b'@'))))

-- `std::toupper` in the C locale.
abbrev pub to_upper : ℕ → ℕ
to_upper c = if leb b'a' c && leb c b'z' then c - 32 else c

-- How far `std::find_if_not` goes.
unfoldable pub run_length : (ℕ → Bool) → Bytes → ℕ
run_length test [] = 0
run_length test (c ∷ s) = if test c then suc (run_length test s) else 0

-- `line[first+1]`, which is the end mark behind the last byte.
abbrev pub head_byte : Bytes → ℕ
head_byte [] = 0
head_byte (c ∷ s) = c

abbrev pub name_class : Bytes → ℕ → Bool
name_class rest = if is_decimal (head_byte rest) then is_decimal else is_alnum

abbrev pub name_case : Bytes → Bytes → Bytes
name_case rest name = if is_decimal (head_byte rest) then name else map to_upper name

-- `oTableOfReplacement_`
abbrev pub Table : Type 0
Table = Bytes → Option Bytes

-- The body of the loop, at the `$` in place `i`: the line and the next place. A key that is not in the
-- table is read through the end iterator, which is `none`.
unfoldable pub replace_at : Table → Bytes → ℕ → Option (Bytes × ℕ)
unfolding run_length
replace_at table line i =
    let rest = drop (i + 1) line in
    let n = run_length (name_class rest) rest in
    Option.map (λ v. (take i line ++ (v ++ drop n rest), i + length v + 1))
      (table (b'$' ∷ name_case rest (take n rest)))

-- The loop over the place-holders, on fuel; `none` means that the fuel ran out.
unfoldable pub expand_loop : Table → ℕ → Bytes → ℕ → Option (Result Bytes)
unfolding find_from replace_at
expand_loop table zero line first = none
expand_loop table (suc fuel) line first = elim (find_from (b'$' ∷ []) line first) [
  | none ↦ some (ok line)
  | some i ↦ elim (replace_at table line i) [
    | none ↦ some (err fault)
    | some r ↦ expand_loop table fuel r.0 r.1
  ]
]

unfoldable pub expand_line : Table → Bytes → Option (Result Bytes)
unfolding expand_loop trim
expand_line table raw =
    let line = trim white_space raw in expand_loop table (length line + 1) line 0

pub record Stmt : Type 0 where
  pub program : Bytes
  pub arguments : Bytes

-- `stmts.emplace_back`
unfoldable pub split_line : Bytes → Stmt
unfolding find
split_line line = elim (find (b' ' ∷ []) line) [
  | none ↦ record { program = line; arguments = [] }
  | some pos ↦ record { program = take pos line; arguments = drop (pos + 1) line }
]
