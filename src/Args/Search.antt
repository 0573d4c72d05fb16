-- ===== src/Args/Search.antt =====
-- app/mkcrd/nsCompo/cSwitchUtils.cpp: `cSwitchUtils`, and app/mkcrd/nsCompo/cArgUtils.cpp: `iSearchOpt`.
-- A violated `Assert` throws. The parser that separates a switch from its argument is a parameter.
use xtru.Common.{
  ltb, leb, ◌==◌, if◌then◌else◌, Bytes, same, length, drop, Result, guard, ◌>>=◌, ◌>>◌,
  runtime_error, fault, err, ok, is_none, ℕ, zero, suc, Bool, true, false, ◌&&◌, ◌||◌, Option, none,
  some, List, [], ◌∷◌, ◌++◌,
}
use mathlib.Core.Option

abbrev pub member : Bytes → List Bytes → Bool
member s [] = false
member s (t ∷ ts) = same s t || member s ts

-- `oSwitches_`, and `oUsableSwitchesMap_` by its tags.
pub record SwitchUtils : Type 0 where
  pub switches : List Bytes
  pub usable : List (Bytes × List Bytes)

abbrev pub lookup_tag : Bytes → List (Bytes × List Bytes) → Option (List Bytes)
lookup_tag tag [] = none
lookup_tag tag ((t, synonyms) ∷ rest) = if same tag t then some synonyms else lookup_tag tag rest

-- `vAddOpt` on the synonyms that it found in its text; a tag that exists is kept.
unfoldable pub add_opt : List Bytes → Bytes → SwitchUtils → SwitchUtils
add_opt synonyms tag su = record {
  switches = su.switches ++ synonyms;
  usable =
      if is_none (lookup_tag tag su.usable) then su.usable ++ (tag, synonyms) ∷ [] else su.usable;
}

-- `oGetSwitches`; the end iterator cannot be read.
unfoldable pub get_switches : Bytes → SwitchUtils → Result (List Bytes)
get_switches tag su = elim (lookup_tag tag su.usable) [
  | none ↦ err fault
  | some synonyms ↦ ok synonyms
]

abbrev pub is_switch : SwitchUtils → Bytes → Bool
is_switch su s = member s su.switches

abbrev pub in_all : Bytes → List (Bytes × List Bytes) → Bool
in_all s [] = true
in_all s ((tag, synonyms) ∷ rest) = member s synonyms && in_all s rest

-- `vSearchInvalidOpt`
unfoldable pub search_invalid_opt : SwitchUtils → List Bytes → Result (Unit {0})
search_invalid_opt su [] = ok tt
search_invalid_opt su (s ∷ operands) =
    guard (is_switch su s) runtime_error
    >> (guard (in_all s su.usable) runtime_error >> search_invalid_opt su operands)

-- `oOperands_`, `oSwtches_`, `oExclusiveSwitches_` by its groups, and the tags of `oAvailableSwitches_`.
pub record ArgUtils : Type 0 where
  pub operands : List Bytes
  pub taken : List Bytes
  pub exclusive : ℕ → List Bytes
  pub available : List Bytes

-- The constructor: the first argument is the name of the program.
unfoldable pub make_args : List Bytes → ArgUtils
make_args argv = record { operands = drop 1 argv; taken = []; exclusive = λ g. []; available = [] }

-- `iDoesTagExist`
unfoldable pub does_tag_exist : Bytes → ArgUtils → Bool
does_tag_exist tag a = member tag a.available

-- `std::find`: what stands before and behind.
unfoldable pub split_at : Bytes → List Bytes → Option (List Bytes × List Bytes)
split_at s [] = none
split_at s (t ∷ ts) =
    if same s t then some ([], ts) else Option.map (λ r. (t ∷ r.0, r.1)) (split_at s ts)

-- The arguments of a switch: up to the end, to another switch, or to the maximum number.
unfoldable pub take_args : SwitchUtils → ℕ → List Bytes → List Bytes × List Bytes
take_args su zero ts = ([], ts)
take_args su (suc n) [] = ([], [])
take_args su (suc n) (t ∷ ts) =
    if is_switch su t then ([], t ∷ ts) else (t ∷ (take_args su n ts).0, (take_args su n ts).1)

module _ (su : SwitchUtils) (tag : Bytes) (grp : ℕ) (min_params max_params : ℕ) where
  -- What is done with a switch that was found.
  unfoldable pub take_switch : Bytes → List Bytes × List Bytes → ArgUtils → Result (Bool × ArgUtils)
  unfolding take_args
  take_switch s (before, behind) a =
      let group = a.exclusive grp ++ s ∷ [] in
      let r = take_args su max_params behind in
      do
        guard (ltb (length group) 2) runtime_error
        guard (leb min_params (length r.0)) runtime_error
        ok (
          true,
          record {
            operands = before ++ r.1;
            taken = a.taken ++ s ∷ r.0;
            exclusive = λ g. if g == grp then group else a.exclusive g;
            available = if member tag a.available then a.available else tag ∷ a.available;
          },
        )

  -- The loop over the synonyms.
  unfoldable pub search_synonyms : List Bytes → ArgUtils → Result (Bool × ArgUtils)
  unfolding split_at take_switch
  search_synonyms [] a = ok (false, a)
  search_synonyms (s ∷ synonyms) a = elim (split_at s a.operands) [
    | none ↦ search_synonyms synonyms a
    | some parts ↦ take_switch s parts a
  ]

  -- `iSearchOpt`
  unfoldable pub search_opt :
      (List Bytes → List Bytes → List Bytes) → ArgUtils → Result (Bool × ArgUtils)
  unfolding get_switches search_synonyms
  search_opt normalize a = get_switches tag su >>= λ synonyms.
      search_synonyms synonyms
        (if ltb 0 min_params then record a { operands = normalize synonyms a.operands } else a)
