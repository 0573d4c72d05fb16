-- ===== src/Format/Samples.antt =====
-- The theorem about the formatter at a concrete text, and tests.
use xtru.Common.{
  Bytes, codes, concat, logic_error, fault, err, ok, ℕ, ◌≡◌, refl, List, [], ◌∷◌, ◌++◌, arith,
}
use xtru.Format.Director.{
  pos, TokenClass, keyword, norm_delim, incr_delim, decr_delim, LinePos, convert,
}
use xtru.Format.Layout.{layout, Placed, convert-layout}

abbrev text : Bytes
text = codes "select (a) from t"

abbrev token : TokenClass → ℕ → LinePos
token c n = record { token_class = c; column = n }

-- The parentheses stand at the columns 8 and 10, and `from` at 12.
abbrev tokens : List LinePos
tokens = token incr_delim 8 ∷ token decr_delim 10 ∷ token keyword 12 ∷ []

converted :
    convert (codes "  ") text tokens
    ≡ ok (codes "select (" ++ (10 ∷ (codes "  a" ++ (10 ∷ (codes ") " ++ (10 ∷ codes "from t"))))))
unfolding convert
converted = refl

-- The comma at column 2, of the class whose comment says that the line feed follows it.
feed_before_comma :
    convert (codes "  ") (codes "a,b") (token norm_delim 2 ∷ [])
    ≡ ok (codes "a" ++ (10 ∷ codes ",b"))
unfolding convert
feed_before_comma = refl

column_zero : convert (codes "  ") text (token keyword 0 ∷ []) ≡ err fault
unfolding convert
column_zero = refl

backwards : convert (codes "  ") text (token keyword 12 ∷ token keyword 3 ∷ []) ≡ err logic_error
unfolding convert
backwards = refl

convert-layout_example :
    (ps : List Bytes) × (concat ps ≡ text)
    × Placed 0 tokens ps
    × (convert (codes "  ") text tokens ≡ ok (layout (codes "  ") (pos 0) tokens ps))
convert-layout_example = convert-layout (codes "  ") text tokens (omega arith)
