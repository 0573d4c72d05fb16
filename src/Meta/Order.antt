-- ===== src/Meta/Order.antt =====
-- inc/nsPsCommon.h: the order of rows by the contents of their columns, the first that differs first.
use Prim.Native.Nat.{compare, Ordering}
use xtru.Common.{Bytes, ℕ, ◌≡◌, refl, ◌⊎◌, inl, inr, List, [], ◌∷◌, arith}
use xtru.Meta.Compare.{strcmp, Kind, array, text, value, Columns}

strcmp-eq : (s t : Bytes) → strcmp s t ≡ Ordering.eq → s ≡ t
strcmp-eq [] [] h = refl
strcmp-eq [] (d ∷ t) h = ground arith
strcmp-eq (c ∷ s) [] h = ground arith
strcmp-eq (c ∷ s) (d ∷ t) h = ground (arith, strcmp-eq s t)

strcmp_trans :
    (s t u : Bytes) → strcmp s t ≡ Ordering.lt → strcmp t u ≡ Ordering.lt → strcmp s u ≡ Ordering.lt
strcmp_trans [] [] u h k = ground arith
strcmp_trans (c ∷ s) [] u h k = ground arith
strcmp_trans s (d ∷ t) [] h k = ground arith
strcmp_trans [] (d ∷ t) (e ∷ u) h k = refl
strcmp_trans (c ∷ s) (d ∷ t) (e ∷ u) h k = ground (arith, strcmp_trans s t u)

-- The order of the rows by their contents.
abbrev pub then_by : Ordering → Ordering → Ordering
then_by Ordering.lt o = Ordering.lt
then_by Ordering.eq o = o
then_by Ordering.gt o = Ordering.gt

abbrev pub order : (s : List Kind) → Columns s → Columns s → Ordering
order [] a b = Ordering.eq
order (array ∷ s) a b = then_by (strcmp a.0 b.0) (order s a.1 b.1)
order (text ∷ s) a b = then_by (strcmp a.0 b.0) (order s a.1 b.1)
order (value ∷ s) a b = then_by (compare a.0 b.0) (order s a.1 b.1)

then_by-eq : (o q : Ordering) → then_by o q ≡ Ordering.eq → (o ≡ Ordering.eq) × (q ≡ Ordering.eq)
then_by-eq Ordering.lt q h = cc
then_by-eq Ordering.eq q h = (refl, h)
then_by-eq Ordering.gt q h = cc

pub order-eq : (s : List Kind) (a b : Columns s) → order s a b ≡ Ordering.eq → a ≡ b
order-eq [] a b h = refl
order-eq (array ∷ s) (x, a) (y, b) h =
    let (e, f) = then_by-eq (strcmp x y) (order s a b) h in
    λ i. (strcmp-eq x y e i, order-eq s a b f i)
order-eq (text ∷ s) (x, a) (y, b) h =
    let (e, f) = then_by-eq (strcmp x y) (order s a b) h in
    λ i. (strcmp-eq x y e i, order-eq s a b f i)
order-eq (value ∷ s) (x, a) (y, b) h =
    let (e, f) = then_by-eq (compare x y) (order s a b) h in
    let e' : x ≡ y = ground (arith, e) in λ i. (e' i, order-eq s a b f i)

-- The opposite of an order.
abbrev opposite : Ordering → Ordering
opposite Ordering.lt = Ordering.gt
opposite Ordering.eq = Ordering.eq
opposite Ordering.gt = Ordering.lt

opposite-then_by : (o q : Ordering) → then_by (opposite o) (opposite q) ≡ opposite (then_by o q)
opposite-then_by Ordering.lt q = refl
opposite-then_by Ordering.eq q = refl
opposite-then_by Ordering.gt q = refl

compare_flip : (x y : ℕ) → compare y x ≡ opposite (compare x y)
compare_flip x y = ground arith

strcmp_flip : (s t : Bytes) → strcmp t s ≡ opposite (strcmp s t)
strcmp_flip [] [] = refl
strcmp_flip [] (d ∷ t) = refl
strcmp_flip (c ∷ s) [] = refl
strcmp_flip (c ∷ s) (d ∷ t) = ground (arith, strcmp_flip s t)

pub order_flip : (s : List Kind) (a b : Columns s) → order s b a ≡ opposite (order s a b)
order_flip [] a b = refl
order_flip (array ∷ s) a b =
    rw (strcmp_flip a.0 b.0, order_flip s a.1 b.1)
      (opposite-then_by (strcmp a.0 b.0) (order s a.1 b.1))
order_flip (text ∷ s) a b =
    rw (strcmp_flip a.0 b.0, order_flip s a.1 b.1)
      (opposite-then_by (strcmp a.0 b.0) (order s a.1 b.1))
order_flip (value ∷ s) a b =
    rw (compare_flip a.0 b.0, order_flip s a.1 b.1)
      (opposite-then_by (compare a.0 b.0) (order s a.1 b.1))

pub compare_refl : (x : ℕ) → compare x x ≡ Ordering.eq
compare_refl x = ground arith

pub strcmp_refl : (s : Bytes) → strcmp s s ≡ Ordering.eq
strcmp_refl [] = refl
strcmp_refl (c ∷ s) = ground (arith, strcmp_refl s)

-- Transitivity, column by column.
abbrev pub Through : Ordering → Ordering → Ordering → Type 0
Through o q r = o ≡ Ordering.lt → q ≡ Ordering.lt → r ≡ Ordering.lt

compare_trans : (x y z : ℕ) → Through (compare x y) (compare y z) (compare x z)
compare_trans x y z h k = ground arith

then_by_lt :
    (o q : Ordering)
    → then_by o q ≡ Ordering.lt
    → (o ≡ Ordering.lt) ⊎ ((o ≡ Ordering.eq) × (q ≡ Ordering.lt))
then_by_lt Ordering.lt q h = inl refl
then_by_lt Ordering.eq q h = inr (refl, h)
then_by_lt Ordering.gt q h = cc

module _ {A : Type 0} (cmp : A → A → Ordering) (cmp-eq : (x y : A) → cmp x y ≡ Ordering.eq → x ≡ y)
    (cmp_trans : (x y z : A) → Through (cmp x y) (cmp y z) (cmp x z)) where
  first_trans :
      (x y z : A) (o q r : Ordering)
      → Through o q r
      → Through (then_by (cmp x y) o) (then_by (cmp y z) q) (then_by (cmp x z) r)
  first_trans x y z o q r t h k = elim (then_by_lt (cmp x y) o h) [
    | inl e ↦ elim (then_by_lt (cmp y z) q k) [
      | inl f ↦ rw (cmp_trans x y z e f) refl
      | inr (f, l) ↦ rw (← cmp-eq y z f) (rw e refl)
    ]
    | inr (e, l) ↦ elim (then_by_lt (cmp y z) q k) [
      | inl f ↦ rw (cmp-eq x y e) (rw f refl)
      | inr (f, m) ↦ let g : cmp x z ≡ Ordering.eq = rw (cmp-eq x y e) f in rw g (t l m)
    ]
  ]

pub order_trans :
    (s : List Kind) (a b c : Columns s) → Through (order s a b) (order s b c) (order s a c)
order_trans [] a b c h k = cc
order_trans (array ∷ s) a b c h k =
    first_trans strcmp strcmp-eq strcmp_trans a.0 b.0 c.0 (order s a.1 b.1) (order s b.1 c.1)
      (order s a.1 c.1) (order_trans s a.1 b.1 c.1) h k
order_trans (text ∷ s) a b c h k =
    first_trans strcmp strcmp-eq strcmp_trans a.0 b.0 c.0 (order s a.1 b.1) (order s b.1 c.1)
      (order s a.1 c.1) (order_trans s a.1 b.1 c.1) h k
order_trans (value ∷ s) a b c h k =
    first_trans compare (λ x y e. ground (arith, e)) compare_trans a.0 b.0 c.0 (order s a.1 b.1)
      (order s b.1 c.1) (order s a.1 c.1) (order_trans s a.1 b.1 c.1) h k

pub order_refl : (s : List Kind) (a : Columns s) → order s a a ≡ Ordering.eq
order_refl [] a = refl
order_refl (array ∷ s) a = rw (strcmp_refl a.0) (order_refl s a.1)
order_refl (text ∷ s) a = rw (strcmp_refl a.0) (order_refl s a.1)
order_refl (value ∷ s) a = rw (compare_refl a.0) (order_refl s a.1)
