-- ===== src/Meta/Total.antt =====
-- inc/nsPsCommon.h: when `composite_less` is a strict total order on the rows with given columns.
use Prim.Native.Nat.{compare, Ordering}
use xtru.Common.{
  Bytes, ℕ, ◌≡◌, refl, sym, ap, ◌≢◌, ◌⊎◌, inl, inr, Bool, true, false, not, ◌&&◌, ◌||◌, List, [],
  ◌∷◌, arith,
}
use xtru.Meta.Compare.{
  strcmp, by_order, less_of_values, composite_less, Kind, array, text, value, Columns, operands,
  sound_behind, sound, audit_columns,
}
use xtru.Meta.Order.{
  order, then_by, order-eq, order_flip, order_trans, order_refl, strcmp_refl, compare_refl,
}

by_order-then_by : (o q : Ordering) → by_order (then_by o q) false ≡ by_order o (by_order q false)
by_order-then_by Ordering.lt q = refl
by_order-then_by Ordering.eq q = refl
by_order-then_by Ordering.gt q = refl

less_of_values-order :
    (s : List Kind) (p : Ordering) (a b : Columns s)
    → sound_behind s ≡ true
    → less_of_values (operands s p a b) ≡ by_order (order s a b) false
unfolding less_of_values
less_of_values-order [] p a b h = refl
less_of_values-order (array ∷ []) p a b h = sym (by_order-then_by (strcmp a.0 b.0) Ordering.eq)
less_of_values-order (array ∷ (k ∷ s)) p a b h = absurd (cc)
less_of_values-order (text ∷ s) p a b h =
    rw (less_of_values-order s p a.1 b.1 h)
      (sym (by_order-then_by (strcmp a.0 b.0) (order s a.1 b.1)))
less_of_values-order (value ∷ s) p a b h =
    rw (less_of_values-order s p a.1 b.1 h)
      (sym (by_order-then_by (compare a.0 b.0) (order s a.1 b.1)))

pub composite_less-order :
    (s : List Kind) (p : Ordering) (a b : Columns s)
    → sound s ≡ true
    → composite_less (operands s p a b) ≡ by_order (order s a b) false
unfolding composite_less
composite_less-order [] p a b h = refl
composite_less-order (array ∷ s) p a b h =
    rw (composite_less-order s p a.1 b.1 h)
      (sym (by_order-then_by (strcmp a.0 b.0) (order s a.1 b.1)))
composite_less-order (text ∷ s) p a b h =
    rw (less_of_values-order s p a.1 b.1 h)
      (sym (by_order-then_by (strcmp a.0 b.0) (order s a.1 b.1)))
composite_less-order (value ∷ s) p a b h =
    rw (less_of_values-order s p a.1 b.1 h)
      (sym (by_order-then_by (compare a.0 b.0) (order s a.1 b.1)))

-- How two rows compare, in either direction: exactly one of three.
abbrev pub Compared : (s : List Kind) (a b : Columns s) → Bool → Bool → Type 0
Compared s a b less more =
    ((less ≡ true) × (more ≡ false) × (a ≢ b))
    ⊎ ((less ≡ false) × (more ≡ false) × (a ≡ b))
    ⊎ ((less ≡ false) × (more ≡ true) × (a ≢ b))

order-Compared :
    (s : List Kind) (a b : Columns s) (o : Ordering)
    → order s a b ≡ o
    → Compared s a b (by_order o false) (by_order (order s b a) false)
order-Compared s a b Ordering.lt e = inl (
  refl,
  ground (arith, order_flip s a b),
  λ f. ground (arith, order_refl s b, ap (λ x. order s x b) f),
)
order-Compared s a b Ordering.eq e =
    inr (inl (refl, ground (arith, order_flip s a b), order-eq s a b e))
order-Compared s a b Ordering.gt e = inr (
    inr (
      refl,
      ground (arith, order_flip s a b),
      λ f. ground (arith, order_refl s b, ap (λ x. order s x b) f),
    ))

abbrev pub implies : Bool → Bool → Bool
implies b c = not b || c

order-implies :
    (s : List Kind) (a b c : Columns s) (o q : Ordering)
    → order s a b ≡ o
    → order s b c ≡ q
    → implies (by_order o false && by_order q false) (by_order (order s a c) false) ≡ true
order-implies s a b c Ordering.lt Ordering.lt e f = rw (order_trans s a b c e f) refl
order-implies s a b c Ordering.lt Ordering.eq e f = refl
order-implies s a b c Ordering.lt Ordering.gt e f = refl
order-implies s a b c Ordering.eq q e f = refl
order-implies s a b c Ordering.gt q e f = refl

-- If every character array that stands behind a text or a number is the last column, then
-- `composite_less` of rows with these columns does not depend on where the rows lie: of two rows it
-- puts exactly one before the other, or neither, which are then equal, and it is transitive.
pub composite_less-Compared :
    (s : List Kind) (a b c : Columns s) (p q r : Ordering)
    → sound s ≡ true
    → Compared s a b (composite_less (operands s p a b)) (composite_less (operands s q b a))
      × (implies
            (composite_less (operands s p a b) && composite_less (operands s q b c))
            (composite_less (operands s r a c))
          ≡ true)
composite_less-Compared s a b c p q r h =
    rw
      (
        composite_less-order s p a b h,
        composite_less-order s q b a h,
        composite_less-order s q b c h,
        composite_less-order s r a c h,
      )
      (
        order-Compared s a b (order s a b) refl,
        order-implies s a b c (order s a b) (order s b c) refl refl,
      )

abbrev pub audit_row : Bytes → Bytes → Bytes → ℕ → Bytes → ℕ → ℕ → Columns audit_columns
audit_row owner object time type name session entry =
    (owner, (object, (time, (type, (name, (session, (entry, tt)))))))

distinct_places :
    (place : Ordering) (rest : Bool)
    → place ≢ Ordering.eq
    → by_order place rest ≡ by_order place false
distinct_places Ordering.lt rest h = refl
distinct_places Ordering.eq rest h = absurd (h refl)
distinct_places Ordering.gt rest h = refl

-- Two rows of `cUserAuditObject` that lie at different places and agree in owner, object, time and
-- type are ordered by where they lie in memory, whatever their names, sessions and entries are.
pub composite_less-audit :
    (owner object time : Bytes) (type : ℕ) (name name' : Bytes) (session session' entry entry' : ℕ)
    (place : Ordering)
    → place ≢ Ordering.eq
    → composite_less (
        operands audit_columns place
          (audit_row owner object time type name session entry)
          (audit_row owner object time type name' session' entry'))
      ≡ by_order place false
unfolding composite_less
composite_less-audit owner object time type name name' session session' entry entry' place h =
    rw (strcmp_refl owner, strcmp_refl object, strcmp_refl time, compare_refl type)
      (distinct_places place _ h)
