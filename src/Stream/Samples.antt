-- ===== src/Stream/Samples.antt =====
-- lib/nsStreamLocator: an engine that finds macros without an option, and runs on it.
use xtru.Common.{
  leb, ◌==◌, if◌then◌else◌, Bool-cases, Bytes, codes, same, take, drop, runtime_error, err, ok,
  starts_with, find, is_empty, ℕ, suc, ◌≡◌, refl, sym, ap, ◌∙◌, inl, inr, Bool, true, false, not,
  ◌&&◌, Option, none, some, List, [], ◌∷◌, arith,
}
use xtru.Stream.Macros.{
  ext_data, ext_clob, Exts, Settings, Match, Engine, Platform, macro_value, named_pipe,
  format_date_time, time_map, conversion, literal, other,
}
use xtru.Stream.Initialize.{
  initialize, has_been_initialized, check_locator, check_output, check_exts, env_values, all_known,
}
use xtru.Stream.Open.{
  StreamLocator, open_stream, file_name, get_stream_locator, tokenize, write_tokens,
}
use xtru.Stream.Segments.{Segment, spelled, matches_from, expand, file_name-expand}
use xtru.Stream.Total.{Spells}
use xtru.Stream.Checked.{ReadsDefault, Opens, initialize-Opens}

is_macro : ℕ → ℕ → ℕ → Bool
is_macro a b c = (a == b'{') && ((leb b'A' b && leb b b'Z') && (c == b'}'))

add_front : ℕ → List Segment × Bytes → List Segment × Bytes
add_front c ([], last) = ([], c ∷ last)
add_front c (g ∷ gs, last) = (record g { before = c ∷ g.before } ∷ gs, last)

macro_front : ℕ → ℕ → ℕ → List Segment × Bytes → List Segment × Bytes
macro_front a b c (gs, last) =
    (record { before = []; spelling = a ∷ b ∷ c ∷ []; var = b ∷ []; opt = [] } ∷ gs, last)

scan : Bytes → List Segment × Bytes
scan [] = ([], [])
scan (a ∷ []) = ([], a ∷ [])
scan (a ∷ b ∷ []) = ([], a ∷ b ∷ [])
scan (a ∷ b ∷ c ∷ s) = elim (is_macro a b c) [
  | true ↦ macro_front a b c (scan s)
  | false ↦ add_front a (scan (b ∷ c ∷ s))
]

add_front-spelled :
    (c : ℕ) (q : List Segment × Bytes)
    → spelled (add_front c q).0 (add_front c q).1 ≡ c ∷ spelled q.0 q.1
unfolding add_front spelled
add_front-spelled c ([], last) = refl
add_front-spelled c (g ∷ gs, last) = refl

macro_front-spelled :
    (a b c : ℕ) (q : List Segment × Bytes)
    → spelled (macro_front a b c q).0 (macro_front a b c q).1 ≡ a ∷ b ∷ c ∷ spelled q.0 q.1
unfolding macro_front spelled
macro_front-spelled a b c (gs, last) = refl

scan_macro :
    (a b c : ℕ) (s : Bytes)
    → is_macro a b c ≡ true
    → scan (a ∷ b ∷ c ∷ s) ≡ macro_front a b c (scan s)
unfolding scan
scan_macro a b c s e =
    ap
      (λ t. elim t as (λ _. List Segment × Bytes) [
        | true ↦ macro_front a b c (scan s)
        | false ↦ add_front a (scan (b ∷ c ∷ s))
      ])
      e

scan_other :
    (a b c : ℕ) (s : Bytes)
    → is_macro a b c ≡ false
    → scan (a ∷ b ∷ c ∷ s) ≡ add_front a (scan (b ∷ c ∷ s))
unfolding scan
scan_other a b c s e =
    ap
      (λ t. elim t as (λ _. List Segment × Bytes) [
        | true ↦ macro_front a b c (scan s)
        | false ↦ add_front a (scan (b ∷ c ∷ s))
      ])
      e

scan-spelled : (s : Bytes) → spelled (scan s).0 (scan s).1 ≡ s
unfolding scan spelled
scan-spelled [] = refl
scan-spelled (a ∷ []) = refl
scan-spelled (a ∷ b ∷ []) = refl
scan-spelled (a ∷ b ∷ c ∷ s) = elim (Bool-cases (is_macro a b c)) [
  | inl e ↦
      ap (λ q. spelled q.0 q.1) (scan_macro a b c s e)
      ∙ macro_front-spelled a b c (scan s)
      ∙ ap (λ t. a ∷ b ∷ c ∷ t) (scan-spelled s)
  | inr e ↦
      ap (λ q. spelled q.0 q.1) (scan_other a b c s e)
      ∙ add_front-spelled a (scan (b ∷ c ∷ s))
      ∙ ap (λ t. a ∷ t) (scan-spelled (b ∷ c ∷ s))
]

find_macros : Bytes → List Match
find_macros s = matches_from 0 (scan s).0

-- A scheme up to the first colon, and what follows it and two slashes.
drop_slashes : Bytes → Bytes
drop_slashes s = if starts_with (codes "//") s then drop 2 s else s

match_location : Bytes → Option (Bytes × Bytes)
unfolding find drop_slashes
match_location s = elim (find (codes ":") s) [
  | none ↦ none
  | some n ↦ some (take n s, drop_slashes (drop (suc n) s))
]

match_env : Bytes → Option (Bytes × Bytes)
unfolding find
match_env s = elim (find (codes "=") s) [ none ↦ none | some n ↦ some (take n s, drop (suc n) s) ]

engine : Engine
unfolding match_location find_macros match_env
engine = record {
  match_location = match_location;
  find_macros = find_macros;
  is_identifier = λ s. not (is_empty s);
  match_env = match_env;
  find_date = λ s. [];
  find_time =
      λ s. conversion (codes "HH") ∷ literal [] ∷ conversion (codes "mm") ∷ other (codes "x") ∷ [];
}

platform : Platform
platform = record {
  exists = λ s. true;
  is_directory = λ s. same s (codes "/out");
  printenv = some (codes "A=1" ∷ codes " B=2" ∷ codes "A=3" ∷ codes "C" ∷ codes "H=/h" ∷ []);
  strftime = λ s. some s;
}

abbrev exts : Exts
exts = record {
  of_data = codes "dat";
  of_ctrl = codes "ctl";
  of_clob = codes "clob";
  of_blob = codes "blob";
}

abbrev unset : Settings
unset = record {
  specified = [];
  stdout = 0;
  output = [];
  exts = record { of_data = []; of_ctrl = []; of_clob = []; of_blob = [] };
  env_map = [];
  suppress_ctrlf = false;
}

abbrev begun : Settings
begun = record {
  specified = codes "named_pipe:{O}/p_{T}";
  stdout = 1;
  output = codes "/out";
  exts = exts;
  env_map = (codes "A", codes "1") ∷ (codes "H", codes "/h") ∷ [];
  suppress_ctrlf = true;
}

initialize-begun :
    initialize engine platform (codes "named_pipe:{O}/p_{T}") 1 (codes "/out") exts true unset
    ≡ (begun, ok tt)
unfolding engine platform initialize check_locator check_output check_exts env_values all_known scan
    is_macro add_front macro_front matches_from
initialize-begun = refl

-- A directory that is none leaves the locator set, with the old names of the extensions.
initialize_partly :
    initialize engine platform (codes "named_pipe:{O}/p_{T}") 1 (codes "/file") exts true unset
    ≡ (record unset { specified = codes "named_pipe:{O}/p_{T}"; stdout = 1 }, err runtime_error)
unfolding engine platform initialize check_locator check_output check_exts env_values all_known scan
    is_macro add_front macro_front matches_from
initialize_partly = refl

abbrev emp : StreamLocator
emp = record {
  init_params = record {
    owner = codes "SCOTT";
    table_name = codes "EMP";
    partition_name = codes "P1";
  };
  last_opened_filename = [];
}

engine-Spells : Spells engine
unfolding engine find_macros
engine-Spells s = ((scan s).0, ((scan s).1, (sym (scan-spelled s), refl)))

engine-ReadsDefault : ReadsDefault engine
unfolding engine find_macros match_location scan is_macro add_front macro_front matches_from
engine-ReadsDefault = (refl, refl)

abbrev intact : Bytes × Bytes → Bytes × Bytes
intact m = m

initialize-Opens_example : Opens engine platform begun intact emp ext_clob (codes "/out")
initialize-Opens_example =
    initialize-Opens engine platform (codes "named_pipe:{O}/p_{T}") 1 (codes "/out") exts true unset
      begun intact emp ext_clob (codes "/out") (λ m. refl) engine-Spells engine-ReadsDefault
      initialize-begun (omega arith, (omega arith, tt)) (λ h. ground arith)

sample_opened :
    open_stream engine platform begun intact emp ext_data (codes "/out")
    ≡ ok (record emp { last_opened_filename = codes "/out/p_EMP" }, named_pipe)
unfolding open_stream has_been_initialized get_stream_locator engine file_name tokenize find_macros
    scan is_macro add_front macro_front matches_from write_tokens macro_value platform
sample_opened = refl

-- The second bit alone, which is that of the control file, forwards the files of large objects.
forwarded_by_ctrl : get_stream_locator (record begun { stdout = 2 }) ext_clob ≡ ok begun.specified
unfolding get_stream_locator has_been_initialized
forwarded_by_ctrl = refl

-- The third bit, which the documentation names for them, does not.
kept_by_third :
    get_stream_locator (record begun { stdout = 4 }) ext_clob ≡ ok (codes "file://{O}/{C}.{X}")
unfolding get_stream_locator has_been_initialized
kept_by_third = refl

sample_time : format_date_time platform time_map (engine.find_time []) ≡ codes "%H'%Mx"
unfolding format_date_time platform engine
sample_time = refl

abbrev two : List Segment
two =
    record { before = []; spelling = codes "{O}"; var = codes "O"; opt = [] }
    ∷ record { before = codes "/p_"; spelling = codes "{T}"; var = codes "T"; opt = [] }
    ∷ []

two_found : engine.find_macros (spelled two (codes ".x")) ≡ matches_from 0 two
unfolding engine find_macros scan is_macro add_front macro_front matches_from spelled
two_found = refl

file_name-expand_example :
    file_name engine platform begun emp.init_params ext_data [] (spelled two (codes ".x"))
    ≡ expand engine platform begun emp.init_params ext_data [] two (codes ".x")
file_name-expand_example =
    file_name-expand engine platform begun emp.init_params ext_data [] two (codes ".x") two_found
