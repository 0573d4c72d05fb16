-- ===== src/Meta/Matched.antt =====
-- app/xtru/getmeta/nsGetMeta.h: what the loop of `vPrintMatched` visits, and that the iterators that it
-- keeps can all be erased.
use native.Mathlib.Numerals.{add-one}
use xtru.Common.{
  ltb, ◌==◌, if◌then◌else◌, ==_refl, Bool-cases, length, ℕ, suc, ◌+◌, ◌≤◌, ◌≡◌, refl, sym, subst,
  inl, inr, Bool, true, false, Option, some, List, [], ◌∷◌, ◌++◌, append-nil, append_assoc, arith,
}
use xtru.Meta.Match.{
  Callbacks, Loop, call, call_item, test, erase, erase_all, matched_nodes, erase_matched_key_item,
  visit_all, print_matched, print_all_items,
}
use xtru.Meta.Catalog.{rows}
use xtru.Meta.Report.{select, reject, each, report, report_selected}

module _ {Row : Type 0} where
  -- How often a number is the number of a node.
  abbrev pub count : ℕ → List (ℕ × Row) → ℕ
  count i [] = 0
  count i ((j, r) ∷ ns) = (if i == j then 1 else 0) + count i ns

  -- The numbers are distinct, and below the next one.
  abbrev pub Below : ℕ → List (ℕ × Row) → Type 0
  Below next ns = (i : ℕ) → count i ns ≤ (if ltb i next then 1 else 0)

  unfoldable pub reject_nodes : Option (Row → Bool) → List (ℕ × Row) → List (ℕ × Row)
  reject_nodes p [] = []
  reject_nodes p ((j, r) ∷ ns) = if test p r then reject_nodes p ns else (j, r) ∷ reject_nodes p ns

  pub rows-reject :
      (p : Option (Row → Bool)) (ns : List (ℕ × Row))
      → rows (reject_nodes p ns) ≡ reject p (rows ns)
  unfolding reject_nodes reject
  rows-reject p [] = refl
  rows-reject p ((j, r) ∷ ns) = ground (arith, rows-reject p ns)

  pub length-matched_nodes :
      (p : Option (Row → Bool)) (ns : List (ℕ × Row))
      → length (matched_nodes p ns) ≡ length (select p (rows ns))
  unfolding matched_nodes select
  length-matched_nodes p [] = refl
  length-matched_nodes p ((j, r) ∷ ns) = ground (arith, length-matched_nodes p ns)

  pub count-append : (i : ℕ) (ms ns : List (ℕ × Row)) → count i (ms ++ ns) ≡ count i ms + count i ns
  count-append i [] ns = omega arith
  count-append i ((j, r) ∷ ms) ns = omega (arith, count-append i ms ns)

  pub count-reject :
      (i : ℕ) (p : Option (Row → Bool)) (ns : List (ℕ × Row))
      → count i (reject_nodes p ns) ≤ count i ns
  unfolding reject_nodes
  count-reject i p [] = omega arith
  count-reject i p ((j, r) ∷ ns) = ground (arith, count-reject i p ns)

  erase-middle :
      (ms : List (ℕ × Row)) (j : ℕ) (r : Row) (ns : List (ℕ × Row))
      → count j ms ≡ 0
      → erase j (ms ++ (j, r) ∷ ns) ≡ some (ms ++ ns)
  unfolding erase
  erase-middle [] j r ns h = rw (==_refl j) refl
  erase-middle ((k, q) ∷ ms) j r ns h = ground (arith, erase-middle ms j r ns)

  erase_all-matched :
      (p : Option (Row → Bool)) (next : ℕ) (ms ns : List (ℕ × Row))
      → Below next (ms ++ ns)
      → erase_all (matched_nodes p ns) (ms ++ ns) ≡ some (ms ++ reject_nodes p ns)
  unfolding erase_all matched_nodes reject_nodes
  erase_all-matched p next ms [] h = refl
  erase_all-matched p next ms ((j, r) ∷ ns) h = elim (Bool-cases (test p r)) [
    | inl e ↦
        let absent : count j ms ≡ 0 = ground (arith, h j, count-append j ms ((j, r) ∷ ns)) in
        let smaller : Below next (ms ++ ns) =
          λ i. ground (arith, h i, count-append i ms ((j, r) ∷ ns), count-append i ms ns) in
        ground (arith, e, erase-middle ms j r ns absent, erase_all-matched p next ms ns smaller)
    | inr e ↦
        let regroup : (ms ++ (j, r) ∷ []) ++ ns ≡ ms ++ (j, r) ∷ ns =
          append_assoc ms ((j, r) ∷ []) ns in
        rw (e, ← regroup, ← append_assoc ms ((j, r) ∷ []) (reject_nodes p ns))
          (erase_all-matched p next (ms ++ (j, r) ∷ []) ns (subst (Below next) (sym regroup) h))
  ]

  pub Below-reject :
      (p : Option (Row → Bool)) (next : ℕ) (ns : List (ℕ × Row))
      → Below next ns
      → Below next (reject_nodes p ns)
  Below-reject p next ns h = λ i. ground (arith, h i, count-reject i p ns)

  erase_any :
      (found : List ℕ) (ns : List (ℕ × Row))
      → (if ltb 0 (length found) then erase_all found ns else some ns) ≡ erase_all found ns
  unfolding erase_all
  erase_any [] ns = refl
  erase_any (it ∷ found) ns = ground arith

  pub erase_matched_key_item_lem :
      (p : Option (Row → Bool)) (next : ℕ) (ns : List (ℕ × Row))
      → Below next ns
      → erase_matched_key_item p ns ≡ some (length (select p (rows ns)), reject_nodes p ns)
  unfolding erase_matched_key_item
  erase_matched_key_item_lem p next ns h =
      rw
        (
          erase_any (matched_nodes p ns) ns,
          erase_all-matched p next [] ns h,
          length-matched_nodes p ns,
        )
        refl

not_first : (k : ℕ) → (0 == suc k) ≡ false
not_first k = ground arith

abbrev state : {World : Type 0} → ℕ → World → List ℕ → Loop World
state n w f = record { matched = n; world = w; found = f }

module _ {Row World : Type 0} where
  visit_all_hit :
      (cb : Callbacks Row World) (j : ℕ) (r : Row) (ns : List (ℕ × Row)) (k : ℕ) (w : World)
      (f : List ℕ)
      → test cb.key_matched r ≡ true
      → visit_all cb ((j, r) ∷ ns) (state k w f)
        ≡ visit_all cb ns (
            state
              (suc k)
              (call_item cb.on_repeat r k (if 0 == k then call cb.pre_repeat w else w))
              (f ++ j ∷ []))
  unfolding visit_all
  visit_all_hit cb j r ns k w f e = rw (e, add-one) refl

  visit_all_miss :
      (cb : Callbacks Row World) (j : ℕ) (r : Row) (ns : List (ℕ × Row)) (s : Loop World)
      → test cb.key_matched r ≡ false
      → visit_all cb ((j, r) ∷ ns) s ≡ visit_all cb ns s
  unfolding visit_all
  visit_all_miss cb j r ns s e = rw e refl

  visit_all-each :
      (cb : Callbacks Row World) (ns : List (ℕ × Row)) (k : ℕ) (w : World) (f : List ℕ)
      → visit_all cb ns (state (suc k) w f)
        ≡ state
            (suc k + length (select cb.key_matched (rows ns)))
            (each cb (suc k) (select cb.key_matched (rows ns)) w)
            (f ++ matched_nodes cb.key_matched ns)
  unfolding select each matched_nodes
  visit_all-each cb [] k w f = unfold visit_all in (ground (arith, append-nil f))
  visit_all-each cb ((j, r) ∷ ns) k w f = elim (Bool-cases (test cb.key_matched r)) [
    | inl e ↦
        rw
          (
            visit_all_hit cb j r ns (suc k) w f e,
            not_first k,
            visit_all-each cb ns (suc k) (call_item cb.on_repeat r (suc k) w) (f ++ j ∷ []),
            e,
            append_assoc f (j ∷ []) (matched_nodes cb.key_matched ns),
          )
          (ground arith)
    | inr e ↦ rw (visit_all_miss cb j r ns (state (suc k) w f) e, e) (visit_all-each cb ns k w f)
  ]

  abbrev world_behind : Callbacks Row World → List Row → World → World
  world_behind cb [] w = w
  world_behind cb (r ∷ rs) w = each cb 0 (r ∷ rs) (call cb.pre_repeat w)

  -- The loop from its start.
  visit_all-start :
      (cb : Callbacks Row World) (ns : List (ℕ × Row)) (w : World)
      → visit_all cb ns (state 0 w [])
        ≡ state
            (length (select cb.key_matched (rows ns)))
            (world_behind cb (select cb.key_matched (rows ns)) w)
            (matched_nodes cb.key_matched ns)
  unfolding select matched_nodes each
  visit_all-start cb [] w = unfold visit_all in refl
  visit_all-start cb ((j, r) ∷ ns) w = elim (Bool-cases (test cb.key_matched r)) [
    | inl e ↦
        rw
          (
            visit_all_hit cb j r ns 0 w [] e,
            visit_all-each cb ns 0 (call_item cb.on_repeat r 0 (call cb.pre_repeat w)) (j ∷ []),
            e,
          )
          (ground arith)
    | inr e ↦ rw (visit_all_miss cb j r ns (state 0 w []) e, e) (visit_all-start cb ns w)
  ]

  call-behind :
      (cb : Callbacks Row World) (rs : List Row) (w : World)
      → (if ltb 0 (length rs)
          then call cb.post_repeat (world_behind cb rs w)
          else call cb.not_found (world_behind cb rs w))
        ≡ report_selected cb rs w
  call-behind cb [] w = refl
  call-behind cb (r ∷ rs) w = ground arith

  print_matched-report :
      (cb : Callbacks Row World) (ns : List (ℕ × Row)) (w : World)
      → print_matched cb ns w ≡ (report cb (rows ns) w, matched_nodes cb.key_matched ns)
  unfolding print_matched report
  print_matched-report cb ns w =
      rw (visit_all-start cb ns w, call-behind cb (select cb.key_matched (rows ns)) w) refl

  pub print_all_items-report :
      (cb : Callbacks Row World) (dispose : Bool) (next : ℕ) (ns : List (ℕ × Row)) (w : World)
      → Below next ns
      → print_all_items cb dispose ns w
        ≡ some (if dispose then reject_nodes cb.key_matched ns else ns, report cb (rows ns) w)
  unfolding print_all_items
  print_all_items-report cb true next ns w h =
      rw (print_matched-report cb ns w, erase_all-matched cb.key_matched next [] ns h) refl
  print_all_items-report cb false next ns w h = rw (print_matched-report cb ns w) refl
