-- ===== src/Format/Director.antt =====
-- inc/sql/formatter: the tokens of nsFormatter.h with the places of their line feeds, and `oConvert` of
-- cDirector.h. The tokens come from the parser, which is a grammar of a library; here they are a list.
use xtru.Common.{
  leb, if◌then◌else◌, Bytes, length, take, drop, replicate, concat, Result, guard, ◌>>=◌, ◌>>◌,
  logic_error, fault, ok, is_empty, ℕ, zero, suc, ◌+◌, ◌-◌, ◌%◌, ◌^◌, List, [], ◌∷◌, ◌++◌,
}

-- An `int`.
pub data ℤ : Type 0 where
  pos : ℕ → ℤ
  -- `negsuc n` is -(n + 1).
  negsuc : ℕ → ℤ

pub data NewLineEntry : Type 0 where
  forward backward : NewLineEntry

-- The classes that are derived from `cLinePos`.
pub data TokenClass : Type 0 where
  keyword norm_delim incr_delim decr_delim : TokenClass

-- `cLinePos`, as `vSetMember` fills it.
pub record LinePos : Type 0 where
  pub token_class : TokenClass
  pub column : ℕ

abbrev pub new_line_entry : TokenClass → NewLineEntry
new_line_entry keyword = forward
new_line_entry norm_delim = forward
new_line_entry incr_delim = backward
new_line_entry decr_delim = forward

-- `iLevel += it->iGetIndent()`, which stays in the `int` for a text of fewer than 2 ^ 31 tokens.
abbrev pub add_indent : TokenClass → ℤ → ℤ
add_indent keyword level = level
add_indent norm_delim level = level
add_indent incr_delim (pos n) = pos (suc n)
add_indent incr_delim (negsuc zero) = pos 0
add_indent incr_delim (negsuc (suc n)) = negsuc n
add_indent decr_delim (pos zero) = negsuc 0
add_indent decr_delim (pos (suc n)) = pos n
add_indent decr_delim (negsuc n) = negsuc (suc n)

-- `iGetColumn() + iGetNewLinePos()`, a `std::size_t`.
abbrev pub next_nl : LinePos → ℕ
next_nl l = elim (new_line_entry l.token_class) [
  | forward ↦ (l.column + (2 ^ 64 - 1)) % 2 ^ 64
  | backward ↦ l.column % 2 ^ 64
]

-- The loop over `i` that writes the indentation.
abbrev pub indentation : Bytes → ℤ → Bytes
indentation indent_str (pos n) = concat (replicate n indent_str)
indentation indent_str (negsuc n) = []

module _ (indent_str text : Bytes) where
  -- The loop: what is written, and the head behind it. An iterator behind the end is a fault, and a
  -- text from a head behind its tail throws a `std::length_error`.
  unfoldable pub convert_loop : ℕ → ℤ → List LinePos → Result (Bytes × ℕ)
  convert_loop head level [] = ok ([], head)
  convert_loop head level (l ∷ ls) =
      let tail = next_nl l in
      let deeper = add_indent l.token_class level in
      let rest = convert_loop tail deeper ls in
      guard (leb tail (length text)) fault
      >> guard (leb head tail) logic_error
      >> (rest >>= λ r. ok (
        take (tail - head) (drop head text) ++ (10 ∷ (indentation indent_str deeper ++ r.0)),
        r.1,
      ))

  -- `oConvert`
  unfoldable pub convert : List LinePos → Result Bytes
  unfolding convert_loop
  convert ls =
      convert_loop 0 (pos 0) ls >>= λ r. ok (if is_empty text then r.0 else r.0 ++ drop r.1 text)
