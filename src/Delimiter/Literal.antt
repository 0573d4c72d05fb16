-- ===== src/Delimiter/Literal.antt =====
-- lib/cDelimiter.cpp, namespace `nsDelimiter`: how a delimiter of the configuration is written in the
-- data file and in the control file. `boost::regex_search` is a parameter.
use xtru.Common.{
  leb, ◌==◌, if◌then◌else◌, Bytes, length, take, drop, is_none, ℕ, zero, suc, ◌+◌, ◌-◌, ◌*◌, ◌%◌,
  ◌≤◌, ◌≡◌, Bool, true, not, ◌&&◌, ◌||◌, Option, none, some, [], ◌∷◌, ◌++◌, map,
}
use mathlib.Core.Option

-- What a search finds: the text before the match, the match, the text behind it.
abbrev pub Searcher : Type 0
Searcher = Bytes → Option (Bytes × Bytes × Bytes)

-- `cDelimiter::tType`.
pub data Target : Type 0 where
  to_data to_ctrl : Target

-- `result[1]` of a match, which has at least two bytes.
abbrev second : Bytes → ℕ
second [] = 0
second (a ∷ []) = 0
second (a ∷ b ∷ s) = b

-- What `vForDataEscaped` appends.
unfoldable pub data_escaped : Bytes → Bytes
data_escaped m =
    if second m == b'n'
    then 10 ∷ []
    else if second m == b'r'
    then 13 ∷ []
    else if second m == b't'
    then 9 ∷ []
    else []

-- What `vForCtrlEscaped` appends.
unfoldable pub ctrl_escaped : Bytes → Bytes
ctrl_escaped m =
    if second m == b'n'
    then b'0' ∷ b'A' ∷ []
    else if second m == b'r'
    then b'0' ∷ b'D' ∷ []
    else if second m == b't'
    then b'0' ∷ b'9' ∷ []
    else []

unfoldable pub is_xdigit : ℕ → Bool
is_xdigit c =
    (leb b'0' c && leb c b'9') || ((leb b'A' c && leb c b'F') || (leb b'a' c && leb c b'f'))

-- The value of a hexadecimal digit.
unfoldable pub xvalue : ℕ → ℕ
xvalue c = if leb c b'9' then c - b'0' else if leb c b'F' then c - b'A' + 10 else c - b'a' + 10

-- What `vForDataHexdecm` appends: the stream reads the number behind `0x`, and it is cut to a `char`.
unfoldable pub data_hexdecm : Bytes → Bytes
unfolding xvalue
data_hexdecm (z ∷ x ∷ a ∷ b ∷ s) = ((xvalue a * 16 + xvalue b) % 256) ∷ []
data_hexdecm s = []

unfoldable pub to_upper : ℕ → ℕ
to_upper c = if leb b'a' c && leb c b'z' then c - 32 else c

-- What `vForCtrlHexdecm` appends: `std::string(result, 2, 2)` in upper case.
unfoldable pub ctrl_hexdecm : Bytes → Bytes
unfolding to_upper
ctrl_hexdecm m = map to_upper (take 2 (drop 2 m))

-- The loop of `sCliteralScanner`, on fuel; `none` means that the fuel ran out.
unfoldable pub scan : Searcher → (Bytes → Bytes) → ℕ → Bytes → Bytes → Option Bytes
scan search emit zero dst s = none
scan search emit (suc fuel) dst [] = some dst
scan search emit (suc fuel) dst (c ∷ s) = elim (search (c ∷ s)) [
  | none ↦ some (dst ++ c ∷ s)
  | some (pre, m, post) ↦ scan search emit fuel (dst ++ (pre ++ emit m)) post
]

unfoldable pub literal_scanner : Searcher → (Bytes → Bytes) → Bytes → Option Bytes
unfolding scan
literal_scanner search emit src = scan search emit (length src + 1) [] src

abbrev quote : ℕ
quote = 39

abbrev pub quoted_hex : Bytes → Bytes
quoted_hex s = b'X' ∷ quote ∷ (s ++ quote ∷ [])

abbrev pub quoted : Bytes → Bytes
quoted s = quote ∷ (s ++ quote ∷ [])

-- `sConvLiteral`.
unfoldable pub conv_literal : Searcher → Searcher → Target → Bytes → Option Bytes
unfolding literal_scanner data_escaped ctrl_escaped data_hexdecm ctrl_hexdecm
conv_literal escaped hexdecm to_data src =
    if not (is_none (escaped src))
    then literal_scanner escaped data_escaped src
    else if not (is_none (hexdecm src))
    then literal_scanner hexdecm data_hexdecm src
    else some src
conv_literal escaped hexdecm to_ctrl src =
    if not (is_none (escaped src))
    then Option.map quoted_hex (literal_scanner escaped ctrl_escaped src)
    else if not (is_none (hexdecm src))
    then Option.map quoted_hex (literal_scanner hexdecm ctrl_hexdecm src)
    else some (quoted src)

-- Documented behaviour of a regular expression search: what it returns is an occurrence, none begins
-- further left, and it fails only where there is none.
pub record Finds (P : Bytes → Type 0) (search : Searcher) : Type 0 where
  pub hit : (s pre m post : Bytes) → search s ≡ some (pre, m, post) → (s ≡ pre ++ (m ++ post)) × P m
  pub leftmost :
      (s pre m post : Bytes)
      → search s ≡ some (pre, m, post)
      → (l m' r : Bytes) → s ≡ l ++ (m' ++ r)
      → P m'
      → length pre ≤ length l
  pub miss : (s : Bytes) → search s ≡ none → (l m r : Bytes) → s ≡ l ++ (m ++ r) → ¬ P m

-- The matches of the expression `\\[rnt0]`.
abbrev pub IsEscape : Bytes → Type 0
IsEscape m =
    (c : ℕ) × (m ≡ b'\\' ∷ c ∷ [])
    × ((c == b'r') || ((c == b'n') || ((c == b't') || (c == b'0'))) ≡ true)

-- The matches of the expression `0x[[:xdigit:]]{2}`.
abbrev pub IsHexByte : Bytes → Type 0
IsHexByte m =
    (a : ℕ) × (b : ℕ) × (m ≡ b'0' ∷ b'x' ∷ a ∷ b ∷ []) × (is_xdigit a ≡ true) × (is_xdigit b ≡ true)
