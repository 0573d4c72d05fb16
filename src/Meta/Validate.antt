-- ===== src/Meta/Validate.antt =====
-- app/xtru/getmeta/cConsValidate.cpp: the statements that disable and enable the constraints and the
-- triggers of a table. What the query on the copy of the dictionary brings is a list of rows. A number
-- of `iMngScrOut` that is not set for a kind makes its statements comments.
use Prim.Native.Nat.{Ordering}
use xtru.Common.{
  ◌==◌, if◌then◌else◌, Bytes, codes, same, ℕ, ◌/◌, ◌%◌, Bool, false, some, List, [], ◌∷◌, ◌++◌, map,
}
use xtru.Meta.Compare.{composite_less, composite_equal, arrays}
use xtru.Meta.Match.{Callbacks}
use xtru.Meta.Catalog.{Call, print, subtract, reading}

-- `tConsType`
pub data ConsType : Type 0 where
  c1024 c1025 c1026 c1027 c1028 : ConsType

pub data WayToNext : Type 0 where
  forward backward : WayToNext

-- `tAttributes`, without the indicators.
pub record Constraint : Type 0 where
  pub owner : Bytes
  pub key_name : Bytes
  pub table_name : Bytes
  pub constraint_name : Bytes
  pub validated : Bytes
  pub generated : Bytes

-- `operator<`; the table is not compared.
unfoldable pub less_constraint : Constraint → Constraint → Bool
unfolding composite_less
less_constraint lhs rhs = composite_less (
    arrays lhs.owner rhs.owner Ordering.lt
    ∷ arrays lhs.key_name rhs.key_name Ordering.lt
    ∷ arrays lhs.constraint_name rhs.constraint_name Ordering.lt
    ∷ arrays lhs.validated rhs.validated Ordering.lt
    ∷ arrays lhs.generated rhs.generated Ordering.lt
    ∷ [])

-- `iKeyMatched`, for a key of an owner and a table.
unfoldable pub key_matched : Bytes × Bytes → Constraint → Bool
unfolding composite_equal
key_matched (owner, key_name) c =
    composite_equal (arrays c.owner owner Ordering.lt ∷ arrays c.key_name key_name Ordering.lt ∷ [])

-- `iSearchConsName`
unfoldable pub search_cons_name : Bytes × Bytes × Bytes → Constraint → Bool
unfolding composite_equal
search_cons_name (owner, key_name, constraint_name) c = composite_equal (
    arrays c.owner owner Ordering.lt
    ∷ arrays c.key_name key_name Ordering.lt
    ∷ arrays c.constraint_name constraint_name Ordering.lt
    ∷ [])

-- `iMask`
abbrev pub mask : ConsType → ℕ
mask c1024 = 0x8000
mask c1025 = 0x4000
mask c1026 = 0x2000
mask c1027 = 0x1000
mask c1028 = 0x0800

-- `sProcTitle`
abbrev pub proc_title : ConsType → Bytes
proc_title c1024 = codes "FK constraints"
proc_title c1025 = codes "check constraints"
proc_title c1026 = codes "PK or AK constraints"
proc_title c1027 = codes "Not NULL constraints"
proc_title c1028 = codes "triggers"

-- `sCommentStr`, as the first call of `vSetMask` sets it.
abbrev pub comment_str : ℕ → ConsType → Bytes
comment_str mng_scr_out t = if ((mng_scr_out / mask t) % 2) == 0 then codes "-- " else []

-- `sMakeEnclosedName`
abbrev pub make_enclosed_name : Bytes → Bytes
make_enclosed_name name = codes "\"" ++ (name ++ codes "\"")

abbrev pub new_line : Bytes
new_line = 10 ∷ []

abbrev pub validate_word : Constraint → Bytes
validate_word c =
    if same c.validated (codes "VALIDATED") then codes "validate" else codes "novalidate"

-- The table of the statement: the one of a foreign key is not that of the key.
abbrev pub altered_name : ConsType → Constraint → Bytes
altered_name c1024 c = make_enclosed_name c.table_name
altered_name c1028 c = make_enclosed_name c.table_name
altered_name _ c = make_enclosed_name c.key_name

-- `vPrintForward` of a kind
unfoldable pub print_forward : ℕ → ConsType → Constraint → Bytes
print_forward m c1026 c =
    comment_str m c1026
    ++ (codes "alter table "
        ++ (altered_name c1026 c
            ++ (codes " disable constraint "
                ++ (make_enclosed_name c.constraint_name ++ (codes " drop index;" ++ new_line)))))
print_forward m c1027 c =
    comment_str m c1027
    ++ (codes "alter table "
        ++ (altered_name c1027 c
            ++ (codes " modify ("
                ++ (make_enclosed_name c.constraint_name ++ (codes " null);" ++ new_line)))))
print_forward m c1028 c =
    comment_str m c1028
    ++ (codes "alter trigger " ++ (altered_name c1028 c ++ (codes " disable;" ++ new_line)))
print_forward m t c =
    comment_str m t
    ++ (codes "alter table "
        ++ (altered_name t c
            ++ (codes " disable constraint "
                ++ (make_enclosed_name c.constraint_name ++ (codes ";" ++ new_line)))))

-- `vPrintBackward` of a kind
unfoldable pub print_backward : ℕ → ConsType → Constraint → Bytes
print_backward m c1027 c =
    comment_str m c1027
    ++ (codes "alter table "
        ++ (altered_name c1027 c
            ++ (codes " modify ("
                ++ (make_enclosed_name c.constraint_name
                    ++ (codes " not null " ++ (validate_word c ++ (codes ");" ++ new_line)))))))
print_backward m c1028 c =
    comment_str m c1028
    ++ (codes "alter trigger " ++ (altered_name c1028 c ++ (codes " enable;" ++ new_line)))
print_backward m t c =
    comment_str m t
    ++ (codes "alter table "
        ++ (altered_name t c
            ++ (codes " enable "
                ++ (validate_word c
                    ++ (codes " constraint "
                        ++ (make_enclosed_name c.constraint_name ++ (codes ";" ++ new_line)))))))

unfoldable pub print_constraint : ℕ → ConsType → WayToNext → Constraint → Bytes
unfolding print_forward print_backward
print_constraint m t forward c = print_forward m t c
print_constraint m t backward c = print_backward m t c

-- The arguments of `vPrintAllItems` for a key, with the stream as the world.
abbrev pub callbacks : ℕ → ConsType → Bytes × Bytes → WayToNext → Callbacks Constraint Bytes
callbacks m t key way = record {
  key_matched = some (key_matched key);
  on_repeat = some (λ c i os. os ++ print_constraint m t way c);
  pre_repeat = some (λ os. os ++ (codes "-- " ++ (proc_title t ++ new_line)));
  post_repeat = some (λ os. os);
  not_found =
      some
        (λ os. os ++ (codes "-- Any " ++ (proc_title t ++ (codes " were not found." ++ new_line))));
}

-- `vExecuteAndFetch`, `vPrintAllItems` and `iSubtractCtxItemList`, as calls on the list. Each row is put
-- into the list as it comes, and the list is sorted at the end.
abbrev pub execute_and_fetch_calls :
    List Constraint → List (Call Constraint Bytes) → List (Call Constraint Bytes)
execute_and_fetch_calls cs = reading (map (λ c. c ∷ []) cs)

abbrev pub print_all : ℕ → ConsType → Bytes × Bytes → WayToNext → Call Constraint Bytes
print_all m t key way = print (callbacks m t key way) false

abbrev pub subtract_ctx_item_list : Bytes × Bytes × Bytes → Call Constraint Bytes
subtract_ctx_item_list key = subtract (some (search_cons_name key)) (λ n os. os)
