-- ===== src/Meta/Catalog.antt =====
-- app/xtru/getmeta: the list `oList_` of a class that reads a view of the dictionary, such as
-- `cParentWithChild` and `cOutputOrderTbl`, with what its retriever and its methods do to it.
use mathlib.Core.Option
use xtru.Common.{
  if◌then◌else◌, length, ℕ, suc, ◌+◌, Bool, Option, none, some, List, [], ◌∷◌, ◌++◌, reverse,
}
use xtru.Meta.Match.{Callbacks, print_all_items, erase_matched_key_item}

-- The next number of a node, and the nodes.
pub record Catalog (Row : Type 0) : Type 0 where
  pub next : ℕ
  pub nodes : List (ℕ × Row)

abbrev pub empty : {Row : Type 0} → Catalog Row
empty = record { next = 0; nodes = [] }

-- `std::list::sort` with `operator<`, which is stable.
module _ {Node : Type 0} (less : Node → Node → Bool) where
  abbrev pub insert : Node → List Node → List Node
  insert n [] = n ∷ []
  insert n (m ∷ ms) = if less m n then m ∷ insert n ms else n ∷ m ∷ ms

  unfoldable pub sort : List Node → List Node
  sort [] = []
  sort (n ∷ ns) = insert n (sort ns)

abbrev pub rows : {Row : Type 0} → List (ℕ × Row) → List Row
rows [] = []
rows ((j, r) ∷ ns) = r ∷ rows ns

-- New nodes for the rows.
unfoldable pub make_nodes : {Row : Type 0} → ℕ → List Row → List (ℕ × Row)
make_nodes k [] = []
make_nodes k (r ∷ rs) = (k, r) ∷ make_nodes (suc k) rs

-- What happens to a list: `vPostBulkAction` with the rows of a bulk, `vPostRepeatAction`, `vReverse`,
-- `vPrintAllItems`, and `iSubtractCtxItemList`, whose result goes to a function.
pub data Call (Row World : Type 0) : Type 0 where
  post_bulk : List Row → Call Row World
  post_repeat : Call Row World
  reversed : Call Row World
  print : Callbacks Row World → Bool → Call Row World
  subtract : Option (Row → Bool) → (ℕ → World → World) → Call Row World

module _ {Row World : Type 0} (less : Row → Row → Bool) where
  -- `none` is undefined behaviour.
  unfoldable pub perform : Call Row World → Catalog Row × World → Option (Catalog Row × World)
  unfolding make_nodes sort print_all_items erase_matched_key_item
  perform (post_bulk rs) (c, w) =
      some (record { next = c.next + length rs; nodes = c.nodes ++ make_nodes c.next rs }, w)
  perform post_repeat (c, w) = some (record c { nodes = sort (λ n m. less n.1 m.1) c.nodes }, w)
  perform reversed (c, w) = some (record c { nodes = reverse c.nodes }, w)
  perform (print cb dispose) (c, w) =
      Option.map (λ r. (record c { nodes = r.0 }, r.1)) (print_all_items cb dispose c.nodes w)
  perform (subtract p note) (c, w) =
      Option.map (λ r. (record c { nodes = r.1 }, note r.0 w)) (erase_matched_key_item p c.nodes)

  unfoldable pub perform_all :
      List (Call Row World) → Catalog Row × World → Option (Catalog Row × World)
  unfolding perform
  perform_all [] s = some s
  perform_all (a ∷ calls) s = elim (perform a s) [ none ↦ none | some t ↦ perform_all calls t ]

-- The calls that read the rows: one for each bulk, and the one behind the last.
abbrev pub reading :
    {Row World : Type 0} → List (List Row) → List (Call Row World) → List (Call Row World)
reading [] calls = post_repeat ∷ calls
reading (rs ∷ bulks) calls = post_bulk rs ∷ reading bulks calls

-- What was printed, if there was no undefined behaviour.
abbrev pub printed :
    {Row World : Type 0} → (Row → Row → Bool) → List (Call Row World) → World → Option World
printed less calls w = Option.map (λ s. s.1) (perform_all less calls (empty, w))
