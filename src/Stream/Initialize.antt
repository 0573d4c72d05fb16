-- ===== src/Stream/Initialize.antt =====
-- lib/nsStreamLocator/nsStreamLocator.cpp: `oGetEnvValues` and `vInitialize`, which changes the static
-- variables one after the other, also when a later test fails.
use xtru.Common.{
  ltb, ◌==◌, if◌then◌else◌, Bytes, length, Result, guard, ◌>>◌, runtime_error, err, ok, is_empty, ℕ,
  Bool, true, false, not, ◌&&◌, ◌||◌, Option, none, some, List, [], ◌∷◌, ◌++◌,
}
use xtru.Stream.Macros.{Exts, Settings, Match, Engine, Platform, find_key, macro_of, scheme_of}

abbrev pub is_some : {A : Type 0} → Option A → Bool
is_some none = false
is_some (some a) = true

-- `insert`, which keeps the entry of a key that is there, for a line that matches.
abbrev env_insert : Option (Bytes × Bytes) → List (Bytes × Bytes) → List (Bytes × Bytes)
env_insert none env = env
env_insert (some kv) env = if is_some (find_key env kv.0) then env else env ++ (kv ∷ [])

-- One round of the loop of `oGetEnvValues`. The first byte of an empty line is read as 0.
abbrev pub env_line : Engine → Bytes → List (Bytes × Bytes) → List (Bytes × Bytes)
env_line e [] env = env_insert (e.match_env []) env
env_line e (c ∷ s) env =
    if (c == b' ') || (c == 9) then env else env_insert (e.match_env (c ∷ s)) env

abbrev env_lines : Engine → List Bytes → List (Bytes × Bytes) → List (Bytes × Bytes)
env_lines e [] env = env
env_lines e (s ∷ lines) env = env_lines e lines (env_line e s env)

-- `oGetEnvValues`
unfoldable pub env_values : Engine → Platform → Result (List (Bytes × Bytes))
env_values e w = elim w.printenv [
  | none ↦ err runtime_error
  | some lines ↦ ok (env_lines e lines [])
]

-- The loop over the macros that appear in the location.
unfoldable pub all_known : List Match → Bool
all_known [] = true
all_known (m ∷ ms) = is_some (macro_of m.var) && all_known ms

-- The tests of the scheme and the location of a locator that matched.
abbrev pub check_parts : Engine → Option (Bytes × Bytes) → Result (Unit {0})
check_parts e none = err runtime_error
check_parts e (some (scheme, location)) =
    guard (is_some (scheme_of scheme)) runtime_error
    >> (guard (not (is_empty location)) runtime_error
        >> guard (all_known (e.find_macros location)) runtime_error)

-- The tests of `sStreamLocator`.
unfoldable pub check_locator : Engine → Bytes → Result (Unit {0})
check_locator e locator =
    guard (not (is_empty locator)) runtime_error >> check_parts e (e.match_location locator)

-- The tests of `sOutput`.
unfoldable pub check_output : Platform → Bytes → Result (Unit {0})
check_output w output =
    guard (w.exists output) runtime_error >> guard (w.is_directory output) runtime_error

-- The tests of `oExts`.
unfoldable pub check_exts : Engine → Exts → Result (Unit {0})
check_exts e exts =
    guard (e.is_identifier exts.of_data) runtime_error
    >> (guard (e.is_identifier exts.of_ctrl) runtime_error
        >> (guard (e.is_identifier exts.of_clob) runtime_error
            >> guard (e.is_identifier exts.of_blob) runtime_error))

-- The next statements, unless one has thrown; the static variables keep what they have.
abbrev pub after :
    {A : Type 0}
    → Settings
    → Result A
    → (A → Settings × Result (Unit {0}))
    → Settings × Result (Unit {0})
after s (err failing) next = (s, err failing)
after s (ok a) next = next a

-- `vInitialize`
unfoldable pub initialize :
    Engine → Platform → Bytes → ℕ → Bytes → Exts → Bool → Settings → Settings × Result (Unit {0})
initialize e w locator stdout output exts suppress s = after s (check_locator e locator) λ _.
    let s1 : Settings = record s { specified = locator; stdout = stdout } in
    after s1 (check_output w output) λ _.
      let s2 : Settings = record s1 { output = output } in
      after s2 (env_values e w) λ env.
        let s3 : Settings = record s2 { env_map = env } in
        after s3 (check_exts e exts)
          λ _. (record s3 { exts = exts; suppress_ctrlf = suppress }, ok tt)

-- `iHasBeenInitialized`
unfoldable pub has_been_initialized : Settings → Bool
has_been_initialized s = ltb 0 (length s.specified)
