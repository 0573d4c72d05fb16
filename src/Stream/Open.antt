-- ===== src/Stream/Open.antt =====
-- lib/nsStreamLocator/nsStreamLocator.cpp: `sGetStreamLocator`, and lib/nsStreamLocator/cStreamLocator.cpp:
-- the tokens of a location, and `oOpen` up to the construction of the stream.
use xtru.Common.{
  ltb, leb, ◌==◌, if◌then◌else◌, Bytes, codes, length, take, drop, Result, guard, ◌>>=◌, ◌>>◌,
  runtime_error, out_of_range, logic_error, err, ok, ℕ, ◌+◌, ◌-◌, ◌/◌, ◌%◌, ◌^◌, Bool, not, Option,
  none, some, List, [], ◌∷◌, ◌++◌,
}
use xtru.Stream.Macros.{
  ExtType, ext_data, ext_ctrl, ext_clob, ext_blob, num_ext_type, InitParams, Settings, Match,
  Engine, Platform, Macro, macro_of, Generator, scheme_of, macro_value,
}
use xtru.Stream.Initialize.{has_been_initialized}

abbrev pub default_stream_locator : Bytes
default_stream_locator = codes "file://{O}/{C}.{X}"

-- `x & 0x1`, `x & 0x2` and `x & 0x3` as tests.
abbrev first_bit : ℕ → Bool
first_bit x = not (x % 2 == 0)

abbrev second_bit : ℕ → Bool
second_bit x = not (x / 2 % 2 == 0)

abbrev first_bits : ℕ → Bool
first_bits x = not (x % 4 == 0)

abbrev pub chosen : Settings → Bool → Bytes
chosen s bit = if bit then s.specified else default_stream_locator

abbrev pub locator_for : Settings → ExtType → Result Bytes
locator_for s ext_data = ok (chosen s (first_bit s.stdout))
locator_for s ext_ctrl = ok (chosen s (second_bit s.stdout))
locator_for s ext_clob = ok (chosen s (first_bits s.stdout))
locator_for s ext_blob = ok (chosen s (first_bits s.stdout))
locator_for s num_ext_type = err logic_error

-- `sGetStreamLocator`
unfoldable pub get_stream_locator : Settings → ExtType → Result Bytes
unfolding has_been_initialized
get_stream_locator s x = guard (has_been_initialized s) runtime_error >> locator_for s x

-- `LiteralToken` and `VariableToken`.
pub data Token : Type 0 where
  literal_token : Bytes → Token
  variable_token : Bytes → Bytes → Token

-- `substr`
abbrev pub substr : Bytes → ℕ → ℕ → Result Bytes
substr s from count = guard (leb from (length s)) out_of_range >> ok (take count (drop from s))

-- The difference of two `size_t`.
abbrev pub distance : ℕ → ℕ → ℕ
distance from to = if leb from to then to - from else 2 ^ 64 - (from - to)

abbrev pub push : Result Bytes → Result (List Token) → Result (List Token)
push text tokens = text >>= λ t. tokens >>= λ ts. ok (literal_token t ∷ ts)

abbrev pub push_variable : Match → Result (List Token) → Result (List Token)
push_variable m tokens = tokens >>= λ ts. ok (variable_token m.var m.opt ∷ ts)

-- The loop over the matches, from `lastPos` on, and the last fragment.
unfoldable pub tokenize : Bytes → ℕ → List Match → Result (List Token)
tokenize location last [] =
    if ltb last (length location)
    then push (substr location last (length location)) (ok [])
    else ok []
tokenize location last (m ∷ ms) =
    let rest = push_variable m (tokenize location (m.position + m.size) ms) in
    if m.position == last then rest else push (substr location last (distance last m.position)) rest

-- `cStreamLocatorImpl`, less the tracer.
pub record StreamLocator : Type 0 where
  pub init_params : InitParams
  pub last_opened_filename : Bytes

-- Without a match the groups of `m` are empty texts.
abbrev pub parts_of : Option (Bytes × Bytes) → Bytes × Bytes
parts_of none = ([], [])
parts_of (some m) = m

module _ (e : Engine) (w : Platform) (s : Settings) where
  -- The call of an action; `at` throws for an unknown key.
  abbrev pub call_action : Option Macro → InitParams → Bytes → ExtType → Bytes → Result Bytes
  call_action none p option x dir = err out_of_range
  call_action (some macro) p option x dir = macro_value e w s macro p option x dir

  -- `operator()` of the two classes.
  abbrev pub apply_token : InitParams → ExtType → Bytes → Token → Result Bytes
  apply_token p x dir (literal_token t) = ok t
  apply_token p x dir (variable_token var option) = call_action (macro_of var) p option x dir

  -- The loop over `tokens_`.
  unfoldable pub write_tokens : InitParams → ExtType → Bytes → List Token → Result Bytes
  unfolding macro_value
  write_tokens p x dir [] = ok []
  write_tokens p x dir (t ∷ ts) =
      apply_token p x dir t >>= λ text. write_tokens p x dir ts >>= λ rest. ok (text ++ rest)

  -- The name of the file, from the location.
  unfoldable pub file_name : InitParams → ExtType → Bytes → Bytes → Result Bytes
  unfolding tokenize
  file_name p x dir location =
      tokenize location 0 (e.find_macros location) >>= λ ts. write_tokens p x dir ts

  abbrev pub open_with :
      Option Generator
      → Bytes
      → StreamLocator
      → ExtType
      → Bytes
      → Result (StreamLocator × Generator)
  open_with none location o x dir = err runtime_error
  open_with (some g) location o x dir = file_name o.init_params x dir location >>= λ name.
      ok (record o { last_opened_filename = name }, g)

  -- `oOpen`, up to the call of the generator that it has chosen. The text that is matched is a temporary
  -- object, destroyed before the groups are read: `read_back` is what the groups read then.
  unfoldable pub open_stream :
      (Bytes × Bytes → Bytes × Bytes)
      → StreamLocator
      → ExtType
      → Bytes
      → Result (StreamLocator × Generator)
  open_stream read_back o x dir =
      guard (has_been_initialized s) runtime_error
      >> (get_stream_locator s x >>= λ locator.
          let m = read_back (parts_of (e.match_location locator)) in
          open_with (scheme_of m.0) m.1 o x dir)
