-- ===== src/Meta/Opposite.antt =====
-- app/xtru/getmeta/cConsValidate.cpp: what is enabled is what was disabled, in the opposite order.
use mathlib.Core.List.{reverse-append}
use xtru.Common.{
  Bool-cases, Bytes, codes, concat, ℕ, suc, ◌≡◌, refl, sym, ap, ◌∙◌, inl, inr, Bool, Option, some,
  List, [], ◌∷◌, ◌++◌, map, reverse, append-nil, append_assoc, arith,
}
use xtru.Meta.Match.{test}
use xtru.Meta.Catalog.{reversed, sort, printed}
use xtru.Meta.Report.{select, each, report, report_selected, promise_all}
use xtru.Meta.Reread.{printed-promise}
use xtru.Meta.Validate.{
  ConsType, WayToNext, forward, backward, Constraint, less_constraint, key_matched, proc_title,
  new_line, print_constraint, callbacks, execute_and_fetch_calls, print_all,
}

select-append :
    {Row : Type 0} (p : Option (Row → Bool)) (rs qs : List Row)
    → select p (rs ++ qs) ≡ select p rs ++ select p qs
unfolding select
select-append p [] qs = refl
select-append p (r ∷ rs) qs = ground (arith, select-append p rs qs)

select_last :
    {Row : Type 0} (p : Option (Row → Bool)) (r : Row) (rs : List Row)
    → reverse (select p rs) ++ select p (r ∷ []) ≡ reverse (select p (r ∷ rs))
unfolding select
select_last p r rs = elim (Bool-cases (test p r)) [
  | inl e ↦ rw e (sym (reverse-append (r ∷ []) (select p rs)))
  | inr e ↦ rw e (append-nil (reverse (select p rs)))
]

select-reverse :
    {Row : Type 0} (p : Option (Row → Bool)) (rs : List Row)
    → select p (reverse rs) ≡ reverse (select p rs)
select-reverse p [] = unfold select in refl
select-reverse p (r ∷ rs) =
    rw (reverse-append (r ∷ []) rs, select-append p (reverse rs) (r ∷ []), select-reverse p rs)
      (select_last p r rs)

-- A part of a script: a title and the statements, or a remark that there is none.
abbrev pub section : ConsType → List Bytes → Bytes
section t [] = codes "-- Any " ++ (proc_title t ++ (codes " were not found." ++ new_line))
section t (s ∷ ss) = (codes "-- " ++ (proc_title t ++ new_line)) ++ concat (s ∷ ss)

-- The rows of a key, in the order in which the list is sorted.
abbrev pub rows_of_key : Bytes × Bytes → List Constraint → List Constraint
rows_of_key key cs = select (some (key_matched key)) (sort less_constraint cs)

concat_singles : (cs : List Constraint) → concat (map (λ c. c ∷ []) cs) ≡ cs
concat_singles [] = refl
concat_singles (c ∷ cs) = ap (◌∷◌ c) (concat_singles cs)

module _ (m : ℕ) (t : ConsType) (key : Bytes × Bytes) where
  each-concat :
      (way : WayToNext) (i : ℕ) (cs : List Constraint) (os : Bytes)
      → each (callbacks m t key way) i cs os ≡ os ++ concat (map (print_constraint m t way) cs)
  unfolding each
  each-concat way i [] os = sym (append-nil os)
  each-concat way i (c ∷ cs) os =
      rw (each-concat way (suc i) cs (os ++ print_constraint m t way c))
        (append_assoc os (print_constraint m t way c) _)

  report-section :
      (way : WayToNext) (cs : List Constraint) (os : Bytes)
      → report_selected (callbacks m t key way) cs os
        ≡ os ++ section t (map (print_constraint m t way) cs)
  report-section way [] os = refl
  report-section way (c ∷ cs) os =
      rw (each-concat way 0 (c ∷ cs) (os ++ (codes "-- " ++ (proc_title t ++ new_line))))
        (append_assoc os (codes "-- " ++ (proc_title t ++ new_line)) _)

  calls-sections :
      (cs : List Constraint)
      → (promise_all less_constraint
          (print_all m t key forward ∷ reversed ∷ print_all m t key backward ∷ [])
          (sort less_constraint cs, [])).1
        ≡ section t (map (print_constraint m t forward) (rows_of_key key cs))
          ++ section t (map (print_constraint m t backward) (reverse (rows_of_key key cs)))
  unfolding promise_all report
  calls-sections cs =
      rw
        (
          select-reverse (some (key_matched key)) (sort less_constraint cs),
          report-section backward (reverse (rows_of_key key cs))
              (report_selected (callbacks m t key forward) (rows_of_key key cs) []),
          report-section forward (rows_of_key key cs) [],
        )
        refl

-- After the rows of a query have been read, the script that disables the constraints of a table,
-- followed by the one that enables them after `vReverse`, consists of a section with a statement for
-- each row of the table in the order of the list and of a section with a statement for each of the
-- same rows in the opposite order; a section with no statement is a remark.
pub printed-opposite :
    (m : ℕ) (t : ConsType) (key : Bytes × Bytes) (cs : List Constraint)
    → printed less_constraint
        (execute_and_fetch_calls cs
          (print_all m t key forward ∷ reversed ∷ print_all m t key backward ∷ []))
        []
      ≡ some (
          section t (map (print_constraint m t forward) (rows_of_key key cs))
          ++ section t (map (print_constraint m t backward) (reverse (rows_of_key key cs))))
printed-opposite m t key cs =
    printed-promise less_constraint (map (λ c. c ∷ []) cs)
      (print_all m t key forward ∷ reversed ∷ print_all m t key backward ∷ []) []
    ∙ rw (concat_singles cs) (ap some (calls-sections m t key cs))
