-- ===== src/Delimiter/Forms.antt =====
-- inc/cDelimiter.h: the forms of a delimiter of the configuration, what they mean, and readers of the data file
-- and of the control file.
use xtru.Common.{
  ◌==◌, if◌then◌else◌, Bytes, length, drop, concat, All, ℕ, ◌+◌, ◌*◌, ◌<◌, ◌≡◌, refl, ap, Bool,
  true, false, ◌&&◌, Option, none, some, List, [], ◌∷◌, ◌++◌, map, arith,
}
use mathlib.Core.Option
use xtru.Delimiter.Literal.{
  data_escaped, ctrl_escaped, is_xdigit, xvalue, data_hexdecm, to_upper, ctrl_hexdecm, quoted_hex,
  quoted, IsEscape, IsHexByte,
}

pub data Escape : Type 0 where
  new_line return_ tab empty : Escape

abbrev escape_char : Escape → ℕ
escape_char new_line = b'n'
escape_char return_ = b'r'
escape_char tab = b't'
escape_char empty = b'0'

-- The three forms of a delimiter: a plain text, C escapes, hexadecimal bytes by pairs of digits.
pub data Form : Type 0 where
  plain : Bytes → Form
  escapes : List Escape → Form
  hexes : List (ℕ × ℕ) → Form

abbrev pub escape_token : Escape → Bytes
escape_token e = b'\\' ∷ escape_char e ∷ []

abbrev pub hex_token : ℕ × ℕ → Bytes
hex_token (a, b) = b'0' ∷ b'x' ∷ a ∷ b ∷ []

-- How it is written in the configuration.
abbrev pub spell : Form → Bytes
spell (plain s) = s
spell (escapes es) = concat (map escape_token es)
spell (hexes hs) = concat (map hex_token hs)

abbrev escape_bytes : Escape → Bytes
escape_bytes new_line = 10 ∷ []
escape_bytes return_ = 13 ∷ []
escape_bytes tab = 9 ∷ []
escape_bytes empty = []

abbrev hex_byte : ℕ × ℕ → Bytes
hex_byte (a, b) = (xvalue a * 16 + xvalue b) ∷ []

-- The bytes that it stands for.
abbrev pub meaning : Form → Bytes
meaning (plain s) = s
meaning (escapes es) = concat (map escape_bytes es)
meaning (hexes hs) = concat (map hex_byte hs)

abbrev pub IsHexPair : ℕ × ℕ → Type 0
IsHexPair (a, b) = (is_xdigit a ≡ true) × (is_xdigit b ≡ true)

abbrev pub HasNo : (Bytes → Type 0) → Bytes → Type 0
HasNo P s = (l m r : Bytes) → s ≡ l ++ (m ++ r) → ¬ P m

-- A byte that ends a literal of the loader, which writes it twice inside of one.
abbrev pub quote_mark : ℕ
quote_mark = 39

-- A plain text holds no escape and no quotation mark; rows of escapes and of bytes are not empty.
abbrev pub IsForm : Form → Type 0
IsForm (plain s) = HasNo IsEscape s × HasNo IsHexByte s × All (λ c. (c == quote_mark) ≡ false) s
IsForm (escapes es) = 0 < length es
IsForm (hexes hs) = (0 < length hs) × All IsHexPair hs

-- How the loader reads the literal of a control file: `X'…'` by pairs of digits, `'…'` with two quotation
-- marks for one, and nothing behind a single one.
unfoldable pub read_hex : Bytes → Option Bytes
unfolding is_xdigit xvalue
read_hex [] = none
read_hex (a ∷ []) = if a == 39 then some [] else none
read_hex (a ∷ b ∷ s) =
    if is_xdigit a && is_xdigit b
    then Option.map (λ t. (xvalue a * 16 + xvalue b) ∷ t) (read_hex s)
    else none

unfoldable read_text_from : Bool → Bytes → Option Bytes
read_text_from false [] = none
read_text_from false (c ∷ s) =
    let rest = read_text_from (c == quote_mark) s in
    if c == quote_mark then rest else Option.map (λ t. c ∷ t) rest
read_text_from true [] = some []
read_text_from true (c ∷ s) =
    let rest = read_text_from false s in
    if c == quote_mark then Option.map (λ t. c ∷ t) rest else none

unfoldable pub read_text : Bytes → Option Bytes
unfolding read_text_from
read_text s = read_text_from false s

unfoldable pub read_ctrl : Bytes → Option Bytes
unfolding read_hex read_text
read_ctrl (c ∷ s) = if c == 39 then read_text s else read_hex (drop 1 s)
read_ctrl [] = none

read_text_from-quoted :
    (s : Bytes)
    → All (λ c. (c == quote_mark) ≡ false) s
    → read_text_from false (s ++ quote_mark ∷ []) ≡ some s
unfolding read_text_from
read_text_from-quoted [] h = refl
read_text_from-quoted (c ∷ s) h = rw (h.0, read_text_from-quoted s h.1) refl

pub read_ctrl-quoted :
    (s : Bytes) → All (λ c. (c == quote_mark) ≡ false) s → read_ctrl (quoted s) ≡ some s
unfolding read_ctrl read_text
read_ctrl-quoted s h = read_text_from-quoted s h

is_xdigit-to_upper :
    (c : ℕ)
    → is_xdigit c ≡ true
    → (is_xdigit (to_upper c) ≡ true) × (xvalue (to_upper c) ≡ xvalue c)
unfolding is_xdigit to_upper xvalue
is_xdigit-to_upper c h = ground arith

read_hex_pair :
    (a b : ℕ) (s t : Bytes)
    → is_xdigit a ≡ true
    → is_xdigit b ≡ true
    → read_hex s ≡ some t
    → read_hex (to_upper a ∷ to_upper b ∷ s) ≡ some ((xvalue a * 16 + xvalue b) ∷ t)
unfolding read_hex
read_hex_pair a b s t ha hb e =
    let (ua, va) = is_xdigit-to_upper a ha in
    let (ub, vb) = is_xdigit-to_upper b hb in rw (ua, ub, e, va, vb) refl

read_hex-hexes :
    (hs : List (ℕ × ℕ))
    → All IsHexPair hs
    → read_hex (concat (map ctrl_hexdecm (map hex_token hs)) ++ 39 ∷ [])
      ≡ some (concat (map hex_byte hs))
unfolding ctrl_hexdecm
read_hex-hexes [] w = unfold read_hex in refl
read_hex-hexes ((a, b) ∷ hs) ((ha, hb), w) = read_hex_pair a b _ _ ha hb (read_hex-hexes hs w)

read_hex-escapes :
    (es : List Escape)
    → read_hex (concat (map ctrl_escaped (map escape_token es)) ++ 39 ∷ [])
      ≡ some (concat (map escape_bytes es))
unfolding read_hex ctrl_escaped
read_hex-escapes [] = refl
read_hex-escapes (new_line ∷ es) = rw (read_hex-escapes es) refl
read_hex-escapes (return_ ∷ es) = rw (read_hex-escapes es) refl
read_hex-escapes (tab ∷ es) = rw (read_hex-escapes es) refl
read_hex-escapes (empty ∷ es) = read_hex-escapes es

pub read_ctrl-escapes :
    (es : List Escape)
    → read_ctrl (quoted_hex (concat (map ctrl_escaped (map escape_token es))))
      ≡ some (concat (map escape_bytes es))
unfolding read_ctrl
read_ctrl-escapes es = read_hex-escapes es

pub read_ctrl-hexes :
    (hs : List (ℕ × ℕ))
    → All IsHexPair hs
    → read_ctrl (quoted_hex (concat (map ctrl_hexdecm (map hex_token hs))))
      ≡ some (concat (map hex_byte hs))
unfolding read_ctrl
read_ctrl-hexes hs w = read_hex-hexes hs w

pub data_hexes :
    (hs : List (ℕ × ℕ))
    → All IsHexPair hs
    → concat (map data_hexdecm (map hex_token hs)) ≡ concat (map hex_byte hs)
unfolding data_hexdecm is_xdigit
data_hexes [] w = refl
data_hexes ((a, b) ∷ hs) (p, w) = ground (arith, data_hexes hs w)

pub data_escapes :
    (es : List Escape)
    → concat (map data_escaped (map escape_token es)) ≡ concat (map escape_bytes es)
unfolding data_escaped
data_escapes [] = refl
data_escapes (new_line ∷ es) = ap (◌∷◌ 10) (data_escapes es)
data_escapes (return_ ∷ es) = ap (◌∷◌ 13) (data_escapes es)
data_escapes (tab ∷ es) = ap (◌∷◌ 9) (data_escapes es)
data_escapes (empty ∷ es) = data_escapes es
