-- ===== src/Meta/Match.antt =====
-- app/xtru/getmeta/nsGetMeta.h: `vPrintMatched` and `iEraseMatchedKeyItem`, and the
-- `vPrintAllItems` of the classes that call them. A node of a `std::list` is a number with the row that
-- the node holds, and an iterator is the number of its node. The `World` is what the callbacks change.
use mathlib.Core.Option
use xtru.Common.{
  ltb, ◌==◌, if◌then◌else◌, length, ℕ, ◌+◌, Bool, false, Option, none, some, List, [], ◌∷◌, ◌++◌,
}

-- The pointers to member functions, the key that they take put in; `none` is `nullptr`.
pub record Callbacks (Row World : Type 0) : Type 0 where
  pub key_matched : Option (Row → Bool)
  pub on_repeat : Option (Row → ℕ → World → World)
  pub pre_repeat : Option (World → World)
  pub post_repeat : Option (World → World)
  pub not_found : Option (World → World)

module _ {Row : Type 0} where
  -- `oList.erase(it)`: without such a node in the list this is undefined behaviour, `none`.
  unfoldable pub erase : ℕ → List (ℕ × Row) → Option (List (ℕ × Row))
  erase it [] = none
  erase it ((j, r) ∷ ns) =
      if it == j then some ns else Option.map (λ rest. (j, r) ∷ rest) (erase it ns)

  unfoldable pub erase_all : List ℕ → List (ℕ × Row) → Option (List (ℕ × Row))
  unfolding erase
  erase_all [] ns = some ns
  erase_all (it ∷ its) ns = elim (erase it ns) [ none ↦ none | some rest ↦ erase_all its rest ]

  abbrev pub test : Option (Row → Bool) → Row → Bool
  test none r = false
  test (some p) r = p r

  unfoldable pub matched_nodes : Option (Row → Bool) → List (ℕ × Row) → List ℕ
  matched_nodes p [] = []
  matched_nodes p ((j, r) ∷ ns) = if test p r then j ∷ matched_nodes p ns else matched_nodes p ns

  -- `iEraseMatchedKeyItem`
  unfoldable pub erase_matched_key_item :
      Option (Row → Bool) → List (ℕ × Row) → Option (ℕ × List (ℕ × Row))
  unfolding matched_nodes erase_all
  erase_matched_key_item p ns =
      let found = matched_nodes p ns in
      Option.map (λ rest. (length found, rest))
        (if ltb 0 (length found) then erase_all found ns else some ns)

abbrev pub call : {World : Type 0} → Option (World → World) → World → World
call none w = w
call (some f) w = f w

-- The variables of the loop.
pub record Loop (World : Type 0) : Type 0 where
  pub matched : ℕ
  pub world : World
  pub found : List ℕ

module _ {Row World : Type 0} where
  abbrev pub call_item : Option (Row → ℕ → World → World) → Row → ℕ → World → World
  call_item none r i w = w
  call_item (some f) r i w = f r i w

  unfoldable pub visit : Callbacks Row World → ℕ × Row → Loop World → Loop World
  visit cb (it, r) s =
      if test cb.key_matched r
      then record {
        matched = s.matched + 1;
        world =
            call_item cb.on_repeat r s.matched
              (if 0 == s.matched then call cb.pre_repeat s.world else s.world);
        found = s.found ++ it ∷ [];
      }
      else s

  unfoldable pub visit_all : Callbacks Row World → List (ℕ × Row) → Loop World → Loop World
  unfolding visit
  visit_all cb [] s = s
  visit_all cb (n ∷ ns) s = visit_all cb ns (visit cb n s)

  -- The world and `oArr` behind the call.
  unfoldable pub print_matched : Callbacks Row World → List (ℕ × Row) → World → World × List ℕ
  unfolding visit_all
  print_matched cb ns w =
      let s = visit_all cb ns (record { matched = 0; world = w; found = [] }) in
      (if ltb 0 s.matched then call cb.post_repeat s.world else call cb.not_found s.world, s.found)

  -- `vPrintAllItems`
  unfoldable pub print_all_items :
      Callbacks Row World → Bool → List (ℕ × Row) → World → Option (List (ℕ × Row) × World)
  unfolding erase_all
  print_all_items cb dispose ns w =
      let r = print_matched cb ns w in
      if dispose then Option.map (λ rest. (rest, r.0)) (erase_all r.1 ns) else some (ns, r.0)
