-- ===== src/Meta/Refines.antt =====
-- app/xtru/getmeta: the calls on a list of nodes do what they promise on the rows.
use mathlib.Core.List.{reverse-append}
use mathlib.Core.Option
use xtru.Common.{
  ltb, ◌==◌, if◌then◌else◌, length, ℕ, suc, ◌+◌, ◌≡◌, refl, ap, ◌∙◌, subst, Bool, true, false,
  Option, none, some, List, [], ◌∷◌, ◌++◌, reverse, arith,
}
use xtru.Meta.Catalog.{
  Catalog, empty, insert, sort, rows, make_nodes, Call, post_bulk, post_repeat, reversed, print,
  subtract, perform, perform_all,
}
use xtru.Meta.Report.{promise, promise_all}
use xtru.Meta.Matched.{
  count, Below, reject_nodes, rows-reject, count-append, Below-reject, erase_matched_key_item_lem,
  print_all_items-report,
}

module _ {Row : Type 0} where
  rows-append : (ms ns : List (ℕ × Row)) → rows (ms ++ ns) ≡ rows ms ++ rows ns
  rows-append [] ns = refl
  rows-append ((j, r) ∷ ms) ns = ap (◌∷◌ r) (rows-append ms ns)

  rows-make_nodes : (k : ℕ) (rs : List Row) → rows (make_nodes k rs) ≡ rs
  unfolding make_nodes
  rows-make_nodes k [] = refl
  rows-make_nodes k (r ∷ rs) = ap (◌∷◌ r) (rows-make_nodes (suc k) rs)

  -- The numbers of new nodes are those from the next one.
  count-make_nodes :
      (i k : ℕ) (rs : List Row)
      → count i (make_nodes k rs) ≡ (if ltb i k then 0 else if ltb i (k + length rs) then 1 else 0)
  unfolding make_nodes
  count-make_nodes i k [] = ground arith
  count-make_nodes i k (r ∷ rs) = ground (arith, count-make_nodes i (suc k) rs)

  Below-append :
      (next : ℕ) (ns : List (ℕ × Row)) (rs : List Row)
      → Below next ns
      → Below (next + length rs) (ns ++ make_nodes next rs)
  Below-append next ns rs h =
      λ i. ground (arith, h i, count-append i ns (make_nodes next rs), count-make_nodes i next rs)

  count-reverse : (i : ℕ) (ns : List (ℕ × Row)) → count i (reverse ns) ≡ count i ns
  count-reverse i [] = refl
  count-reverse i ((j, r) ∷ ns) =
      rw (reverse-append ((j, r) ∷ []) ns, count-append i (reverse ns) ((j, r) ∷ []))
        (omega (arith, count-reverse i ns))

  rows-reverse : (ns : List (ℕ × Row)) → rows (reverse ns) ≡ reverse (rows ns)
  rows-reverse [] = refl
  rows-reverse ((j, r) ∷ ns) =
      rw
        (
          reverse-append ((j, r) ∷ []) ns,
          reverse-append (r ∷ []) (rows ns),
          rows-append (reverse ns) ((j, r) ∷ []),
          rows-reverse ns,
        )
        refl

  module _ (less : Row → Row → Bool) where
    abbrev less_nodes : ℕ × Row → ℕ × Row → Bool
    less_nodes n m = less n.1 m.1

    count-insert :
        (i j : ℕ) (r : Row) (ns : List (ℕ × Row))
        → count i (insert less_nodes (j, r) ns) ≡ (if i == j then 1 else 0) + count i ns
    count-insert i j r [] = refl
    count-insert i j r ((k, q) ∷ ns) = ground (arith, count-insert i j r ns)

    count-sort : (i : ℕ) (ns : List (ℕ × Row)) → count i (sort less_nodes ns) ≡ count i ns
    unfolding sort
    count-sort i [] = refl
    count-sort i ((j, r) ∷ ns) =
        rw (count-insert i j r (sort less_nodes ns)) (omega (arith, count-sort i ns))

    rows-insert :
        (j : ℕ) (r : Row) (ns : List (ℕ × Row))
        → rows (insert less_nodes (j, r) ns) ≡ insert less r (rows ns)
    rows-insert j r [] = refl
    rows-insert j r ((k, q) ∷ ns) = ground (arith, rows-insert j r ns)

    rows-sort : (ns : List (ℕ × Row)) → rows (sort less_nodes ns) ≡ sort less (rows ns)
    unfolding sort
    rows-sort [] = refl
    rows-sort ((j, r) ∷ ns) =
        rw (rows-insert j r (sort less_nodes ns)) (ap (insert less r) (rows-sort ns))

module _ {Row World : Type 0} (less : Row → Row → Bool) where
  -- A call succeeds, keeps the numbers distinct, and leaves what it promises.
  abbrev Keeps : Call Row World → Catalog Row × World → Type 0
  Keeps a (c, w) =
      (d : Catalog Row) × (perform less a (c, w) ≡ some (d, (promise less a (rows c.nodes, w)).1))
      × Below d.next d.nodes
      × (rows d.nodes ≡ (promise less a (rows c.nodes, w)).0)

  after_print : Catalog Row → List (ℕ × Row) × World → Catalog Row × World
  after_print c r = (record c { nodes = r.0 }, r.1)

  after_subtract :
      Catalog Row → (ℕ → World → World) → World → ℕ × List (ℕ × Row) → Catalog Row × World
  after_subtract c note w r = (record c { nodes = r.1 }, note r.0 w)

  perform-Keeps :
      (a : Call Row World) (c : Catalog Row) (w : World) → Below c.next c.nodes → Keeps a (c, w)
  unfolding perform promise after_print after_subtract
  perform-Keeps (post_bulk rs) c w h = (
    record { next = c.next + length rs; nodes = c.nodes ++ make_nodes c.next rs },
    refl,
    Below-append c.next c.nodes rs h,
    rows-append c.nodes (make_nodes c.next rs)
        ∙ ap (λ l. rows c.nodes ++ l) (rows-make_nodes c.next rs),
  )
  perform-Keeps post_repeat c w h = (
    record c { nodes = sort (less_nodes less) c.nodes },
    refl,
    λ i. omega (arith, h i, count-sort less i c.nodes),
    rows-sort less c.nodes,
  )
  perform-Keeps reversed c w h = (
    record c { nodes = reverse c.nodes },
    refl,
    λ i. omega (arith, h i, count-reverse i c.nodes),
    rows-reverse c.nodes,
  )
  perform-Keeps (print cb true) c w h = (
    record c { nodes = reject_nodes cb.key_matched c.nodes },
    ap (Option.map (after_print c)) (print_all_items-report cb true c.next c.nodes w h),
    Below-reject cb.key_matched c.next c.nodes h,
    rows-reject cb.key_matched c.nodes,
  )
  perform-Keeps (print cb false) c w h = (
    c,
    ap (Option.map (after_print c)) (print_all_items-report cb false c.next c.nodes w h),
    h,
    refl,
  )
  perform-Keeps (subtract p note) c w h = (
    record c { nodes = reject_nodes p c.nodes },
    ap (Option.map (after_subtract c note w)) (erase_matched_key_item_lem p c.next c.nodes h),
    Below-reject p c.next c.nodes h,
    rows-reject p c.nodes,
  )

  then_all : List (Call Row World) → Option (Catalog Row × World) → Option (Catalog Row × World)
  then_all calls o = elim o [ none ↦ none | some t ↦ perform_all less calls t ]

  perform_all-Keeps :
      (calls : List (Call Row World)) (c : Catalog Row) (w : World)
      → Below c.next c.nodes
      → (d : Catalog Row) × (perform_all less calls (c, w)
          ≡ some (d, (promise_all less calls (rows c.nodes, w)).1))
        × (rows d.nodes ≡ (promise_all less calls (rows c.nodes, w)).0)
  unfolding perform_all promise_all then_all
  perform_all-Keeps [] c w h = (c, refl, refl)
  perform_all-Keeps (a ∷ calls) c w h =
      let s = promise less a (rows c.nodes, w) in
      let (d, e, v, k) = perform-Keeps a c w h in
      let (d', e', k') = perform_all-Keeps calls d s.1 v in
      (
        d',
        ap (then_all calls) e
            ∙ subst
                (λ z.
                  perform_all less calls (d, s.1) ≡ some (d', (promise_all less calls (z, s.1)).1))
                k e',
        subst (λ z. rows d'.nodes ≡ (promise_all less calls (z, s.1)).0) k k',
      )

-- Calls on an empty list, in any order and number, never erase a node that is not there: they leave
-- the rows and the output that they promise. `vPrintAllItems` promises the callback for nothing found,
-- or the one before, the callback of each matching row in the order of the list with its position
-- among them, and the one behind; with `iDispose` it removes the matching rows and no others.
pub perform_all-promise_all :
    {Row World : Type 0} (less : Row → Row → Bool) (calls : List (Call Row World)) (w : World)
    → (d : Catalog Row) × (perform_all less calls (empty, w)
        ≡ some (d, (promise_all less calls ([], w)).1))
      × (rows d.nodes ≡ (promise_all less calls ([], w)).0)
perform_all-promise_all less calls w = perform_all-Keeps less calls empty w (λ i. omega arith)
