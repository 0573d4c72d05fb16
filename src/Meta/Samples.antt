-- ===== src/Meta/Samples.antt =====
-- The theorems about the lists of the metadata extraction at concrete rows, and tests.
use Prim.Native.Nat.{Ordering}
use xtru.Common.{
  ◌==◌, Bytes, codes, ℕ, ◌+◌, ◌≡◌, refl, true, false, ◌&&◌, none, some, List, [], ◌∷◌, ◌++◌, map,
  reverse,
}
use xtru.Meta.Compare.{
  arrays, values, composite_less, composite_equal, Columns, operands, sound, output_order_columns,
  parent_columns, audit_columns,
}
use xtru.Meta.Match.{Callbacks, print_matched}
use xtru.Meta.Catalog.{
  Catalog, Call, post_bulk, post_repeat, reversed, print, reading, printed, empty, rows,
  perform_all,
}
use xtru.Meta.Report.{promise_all}
use xtru.Meta.Total.{Compared, implies, composite_less-Compared, audit_row, composite_less-audit}
use xtru.Meta.Refines.{perform_all-promise_all}
use xtru.Meta.Reread.{less_columns, exchange, printed-reading}
use xtru.Meta.Validate.{
  c1025, c1027, forward, backward, Constraint, less_constraint, print_constraint, print_all,
  execute_and_fetch_calls,
}
use xtru.Meta.Opposite.{section, rows_of_key, printed-opposite}

-- Rows of the order of output.
abbrev emp : Columns output_order_columns
emp = (codes "SCOTT", (2, (codes "EMP", tt)))

abbrev dept : Columns output_order_columns
dept = (codes "SCOTT", (1, (codes "DEPT", tt)))

emp_behind_dept :
    Compared output_order_columns emp dept
      (composite_less (operands output_order_columns Ordering.lt emp dept))
      (composite_less (operands output_order_columns Ordering.gt dept emp))
    × (implies
          (composite_less (operands output_order_columns Ordering.lt emp dept)
            && composite_less (operands output_order_columns Ordering.gt dept emp))
          (composite_less (operands output_order_columns Ordering.eq emp emp))
        ≡ true)
emp_behind_dept =
    composite_less-Compared output_order_columns emp dept emp Ordering.lt Ordering.gt Ordering.eq
      refl

-- The second array is behind a number: only the addresses decide.
audit_by_address :
    composite_less (
      operands audit_columns Ordering.gt
        (audit_row (codes "SCOTT") (codes "EMP") (codes "t") 2 (codes "EMP") 7 1)
        (audit_row (codes "SCOTT") (codes "EMP") (codes "t") 2 (codes "EMP") 7 2))
    ≡ false
audit_by_address =
    composite_less-audit (codes "SCOTT") (codes "EMP") (codes "t") 2 (codes "EMP") (codes "EMP") 7 7
      1 2 Ordering.gt (λ e. cc)

parents_sound : sound parent_columns ≡ true
parents_sound = refl

-- An array behind a number is not equal to its copy.
equal_arrays :
    composite_equal (values 1 1 ∷ arrays (codes "A") (codes "A") Ordering.lt ∷ []) ≡ false
unfolding composite_equal
equal_arrays = refl

abbrev level_two : Callbacks (Columns output_order_columns) (List ℕ)
level_two = record {
  key_matched = some (λ r. r.1.0 == 2);
  on_repeat = some (λ r i w. w ++ (r.1.0 + i) ∷ []);
  pre_repeat = none;
  post_repeat = none;
  not_found = some (λ w. w ++ 99 ∷ []);
}

abbrev calls_twice : List (Call (Columns output_order_columns) (List ℕ))
calls_twice =
    post_bulk (emp ∷ dept ∷ []) ∷ post_repeat ∷ print level_two true ∷ print level_two true ∷ []

calls_twice_run :
    perform_all (less_columns output_order_columns) calls_twice (empty, [])
    ≡ some (record { next = 2; nodes = (1, dept) ∷ [] }, 2 ∷ 99 ∷ [])
unfolding perform_all print_matched composite_less
calls_twice_run = refl

perform_all-promise_all_example :
    (d : Catalog (Columns output_order_columns)) × (perform_all
        (less_columns output_order_columns)
        calls_twice
        (empty, [])
      ≡ some (d, (promise_all (less_columns output_order_columns) calls_twice ([], [])).1))
    × (rows d.nodes ≡ (promise_all (less_columns output_order_columns) calls_twice ([], [])).0)
perform_all-promise_all_example =
    perform_all-promise_all (less_columns output_order_columns) calls_twice []

printed-reading_example :
    printed
      (less_columns output_order_columns)
      (reading ((emp ∷ dept ∷ []) ∷ []) (print level_two true ∷ []))
      []
    ≡ printed
        (less_columns output_order_columns)
        (reading ((dept ∷ []) ∷ (emp ∷ []) ∷ []) (print level_two true ∷ []))
        []
printed-reading_example =
    printed-reading output_order_columns ((emp ∷ dept ∷ []) ∷ []) ((dept ∷ []) ∷ (emp ∷ []) ∷ [])
      (print level_two true ∷ []) [] refl (exchange emp dept [])

abbrev constraint : Bytes → Bytes → Constraint
constraint name state = record {
  owner = codes "SCOTT";
  key_name = codes "EMP";
  table_name = [];
  constraint_name = name;
  validated = state;
  generated = [];
}

enabled_text :
    print_constraint 0x8000 c1025 backward (constraint (codes "CK") (codes "VALIDATED"))
    ≡ codes "-- alter table \"EMP\" enable validate constraint \"CK\";" ++ 10 ∷ []
unfolding print_constraint
enabled_text = refl

disabled_text :
    print_constraint 0xf000 c1027 forward (constraint (codes "SAL") [])
    ≡ codes "alter table \"EMP\" modify (\"SAL\" null);" ++ 10 ∷ []
unfolding print_constraint
disabled_text = refl

abbrev two_checks : List Constraint
two_checks = constraint (codes "CK2") [] ∷ constraint (codes "CK1") (codes "VALIDATED") ∷ []

printed-opposite_example :
    printed less_constraint
      (execute_and_fetch_calls two_checks (
        print_all 0x4000 c1025 (codes "SCOTT", codes "EMP") forward
        ∷ reversed
        ∷ print_all 0x4000 c1025 (codes "SCOTT", codes "EMP") backward
        ∷ []))
      []
    ≡ some (
        section c1025 (
          map
            (print_constraint 0x4000 c1025 forward)
            (rows_of_key (codes "SCOTT", codes "EMP") two_checks))
        ++ section c1025 (
            map
              (print_constraint 0x4000 c1025 backward)
              (reverse (rows_of_key (codes "SCOTT", codes "EMP") two_checks))))
printed-opposite_example = printed-opposite 0x4000 c1025 (codes "SCOTT", codes "EMP") two_checks
