-- ===== src/Meta/Compare.antt =====
-- inc/nsPsCommon.h: the comparison of two rows by several columns, `composite_less` and
-- `composite_equal`, and the cascades of string comparisons. A text ends before its end mark.
use Prim.Native.Nat.{compare, Ordering}
use xtru.Common.{◌==◌, Bytes, ℕ, Bool, true, false, ◌&&◌, List, [], ◌∷◌}

-- `strcmp`, by the sign of its result.
abbrev pub strcmp : Bytes → Bytes → Ordering
strcmp [] [] = Ordering.eq
strcmp [] (d ∷ t) = Ordering.lt
strcmp (c ∷ s) [] = Ordering.gt
strcmp (c ∷ s) (d ∷ t) = elim (compare c d) [
  | Ordering.lt ↦ Ordering.lt
  | Ordering.eq ↦ strcmp s t
  | Ordering.gt ↦ Ordering.gt
]

-- What an order says at once, and if it says nothing the rest does.
abbrev pub by_order : Ordering → Bool → Bool
by_order Ordering.lt rest = true
by_order Ordering.eq rest = rest
by_order Ordering.gt rest = false

abbrev pub is_eq : Ordering → Bool
is_eq Ordering.eq = true
is_eq _ = false

-- Two arguments: character arrays, with how their addresses compare, objects of `std::string`, or
-- numbers.
pub data Operands : Type 0 where
  arrays : Bytes → Bytes → Ordering → Operands
  texts : Bytes → Bytes → Operands
  values : ℕ → ℕ → Operands

-- The call that the template for `const T&` makes. The template for `const char*` is declared behind
-- it and is not found: arrays that are not the last two arguments are compared by their addresses.
unfoldable pub less_of_values : List Operands → Bool
less_of_values [] = false
less_of_values (arrays lhs rhs place ∷ []) = by_order (strcmp lhs rhs) false
less_of_values (arrays lhs rhs place ∷ (next ∷ args)) =
    by_order place (less_of_values (next ∷ args))
less_of_values (texts lhs rhs ∷ args) = by_order (strcmp lhs rhs) (less_of_values args)
less_of_values (values lhs rhs ∷ args) = by_order (compare lhs rhs) (less_of_values args)

-- A call from where all templates are declared.
unfoldable pub composite_less : List Operands → Bool
unfolding less_of_values
composite_less [] = false
composite_less (arrays lhs rhs place ∷ args) = by_order (strcmp lhs rhs) (composite_less args)
composite_less (texts lhs rhs ∷ args) = by_order (strcmp lhs rhs) (less_of_values args)
composite_less (values lhs rhs ∷ args) = by_order (compare lhs rhs) (less_of_values args)

-- Here the function for the last two arrays is declared behind the template too.
unfoldable pub equal_of_values : List Operands → Bool
equal_of_values [] = true
equal_of_values (arrays lhs rhs place ∷ args) = is_eq place && equal_of_values args
equal_of_values (texts lhs rhs ∷ args) = is_eq (strcmp lhs rhs) && equal_of_values args
equal_of_values (values lhs rhs ∷ args) = (lhs == rhs) && equal_of_values args

unfoldable pub composite_equal : List Operands → Bool
unfolding equal_of_values
composite_equal [] = true
composite_equal (arrays lhs rhs place ∷ args) = is_eq (strcmp lhs rhs) && composite_equal args
composite_equal (texts lhs rhs ∷ args) = is_eq (strcmp lhs rhs) && equal_of_values args
composite_equal (values lhs rhs ∷ args) = (lhs == rhs) && equal_of_values args

-- The kinds of the columns of a row, and the rows.
pub data Kind : Type 0 where
  array text value : Kind

abbrev pub Columns : List Kind → Type 0
Columns [] = Unit
Columns (array ∷ s) = Bytes × Columns s
Columns (text ∷ s) = Bytes × Columns s
Columns (value ∷ s) = ℕ × Columns s

-- The arguments for two rows. A column has the same offset in both, so that all addresses compare in
-- the same way.
abbrev pub operands : (s : List Kind) → Ordering → Columns s → Columns s → List Operands
operands [] place a b = []
operands (array ∷ s) place a b = arrays a.0 b.0 place ∷ operands s place a.1 b.1
operands (text ∷ s) place a b = texts a.0 b.0 ∷ operands s place a.1 b.1
operands (value ∷ s) place a b = values a.0 b.0 ∷ operands s place a.1 b.1

-- An array that stands behind a text or a number is the last column.
abbrev pub sound_behind : List Kind → Bool
sound_behind [] = true
sound_behind (array ∷ []) = true
sound_behind (array ∷ (k ∷ s)) = false
sound_behind (text ∷ s) = sound_behind s
sound_behind (value ∷ s) = sound_behind s

abbrev pub sound : List Kind → Bool
sound [] = true
sound (array ∷ s) = sound s
sound (text ∷ s) = sound_behind s
sound (value ∷ s) = sound_behind s

-- The columns of `operator<` of `cOutputOrderTbl::tAttributes`: owner, level, table; and of
-- `cParentWithChild::tAttributes`: owner, table.
abbrev pub output_order_columns : List Kind
output_order_columns = array ∷ value ∷ array ∷ []

abbrev pub parent_columns : List Kind
parent_columns = array ∷ array ∷ []

-- The columns by which `cUserAuditObject::tAttributes` compares: owner, object, time, type, name,
-- session and entry.
abbrev pub audit_columns : List Kind
audit_columns = array ∷ array ∷ array ∷ value ∷ array ∷ value ∷ value ∷ []
