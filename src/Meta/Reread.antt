-- ===== src/Meta/Reread.antt =====
-- app/xtru/getmeta: what is printed does not depend on the order in which the database brings the rows,
-- nor on how they are divided into bulks.
use Prim.Native.Nat.{Ordering}
use xtru.Common.{
  if◌then◌else◌, Bool-cases, concat, ◌≡◌, refl, ap, ◌∙◌, inl, inr, Bool, true, false, some, List,
  [], ◌∷◌, ◌++◌, append-nil, append_assoc, arith,
}
use xtru.Meta.Compare.{composite_less, Kind, Columns, operands, sound, by_order}
use xtru.Meta.Order.{order, order-eq, order_flip, order_trans}
use xtru.Meta.Total.{composite_less-order}
use xtru.Meta.Catalog.{Call, insert, sort, reading, printed}
use xtru.Meta.Report.{promise_all}
use xtru.Meta.Refines.{perform_all-promise_all}

module _ (s : List Kind) where
  -- `operator<` of a class with these columns, for two rows of which the first lies before the second.
  abbrev pub less_columns : Columns s → Columns s → Bool
  less_columns a b = composite_less (operands s Ordering.lt a b)

-- The same elements in another order.
pub data Reordered {A : Type 0} : List A → List A → Type 0 where
  nothing : Reordered [] []
  keep : (a : A) {l m : List A} → Reordered l m → Reordered (a ∷ l) (a ∷ m)
  exchange : (a b : A) (l : List A) → Reordered (a ∷ b ∷ l) (b ∷ a ∷ l)
  chain : {l m n : List A} → Reordered l m → Reordered m n → Reordered l n

module _ {Node : Type 0} (less : Node → Node → Bool)
    (asym : (a b : Node) → less b a ≡ true → less a b ≡ false)
    (connected : (a b : Node) → less a b ≡ false → less b a ≡ false → a ≡ b)
    (between : (a b c : Node) → less c b ≡ true → less c a ≡ false → less a b ≡ true) where
  insert_both :
      (a b : Node) (l : List Node)
      → (if less b a then b ∷ a ∷ l else a ∷ b ∷ l) ≡ (if less a b then a ∷ b ∷ l else b ∷ a ∷ l)
  insert_both a b l = elim (Bool-cases (less b a)) [
    | inl e ↦ rw (e, asym a b e) refl
    | inr e ↦ elim (Bool-cases (less a b)) [
      | inl f ↦ rw (e, f) refl
      | inr f ↦ rw (e, f, connected a b f e) refl
    ]
  ]

  insert_comm :
      (a b : Node) (l : List Node)
      → insert less a (insert less b l) ≡ insert less b (insert less a l)
  insert_comm a b [] = insert_both a b []
  insert_comm a b (c ∷ l) = elim (Bool-cases (less c a)) [
    | inl e ↦ elim (Bool-cases (less c b)) [
      | inl f ↦ ground (arith, e, f, insert_comm a b l)
      | inr f ↦ ground (arith, e, f, between b a c e f)
    ]
    | inr e ↦ elim (Bool-cases (less c b)) [
      | inl f ↦ ground (arith, e, f, between a b c f e)
      | inr f ↦ ground (arith, e, f, insert_both a b (c ∷ l))
    ]
  ]

  sort-Reordered : {l m : List Node} → Reordered l m → sort less l ≡ sort less m
  unfolding sort
  sort-Reordered nothing = refl
  sort-Reordered (keep a p) = ap (insert less a) (sort-Reordered p)
  sort-Reordered (exchange a b l) = insert_comm a b (sort less l)
  sort-Reordered (chain p q) = sort-Reordered p ∙ sort-Reordered q

module _ (s : List Kind) (is_sound : sound s ≡ true) where
  less-order : (a b : Columns s) → less_columns s a b ≡ by_order (order s a b) false
  less-order a b = composite_less-order s Ordering.lt a b is_sound

  less_asym : (a b : Columns s) → less_columns s b a ≡ true → less_columns s a b ≡ false
  less_asym a b h = ground (arith, less-order a b, less-order b a, order_flip s a b)

  less_connected :
      (a b : Columns s) → less_columns s a b ≡ false → less_columns s b a ≡ false → a ≡ b
  less_connected a b h k =
      order-eq s a b (ground (arith, less-order a b, less-order b a, order_flip s a b))

  before : (a b : Columns s) → less_columns s a b ≡ true → order s a b ≡ Ordering.lt
  before a b h = ground (arith, less-order a b, h)

  less_between :
      (a b c : Columns s)
      → less_columns s c b ≡ true
      → less_columns s c a ≡ false
      → less_columns s a b ≡ true
  less_between a b c h k = elim (Bool-cases (less_columns s a b)) [
    | inl e ↦ e
    | inr e ↦ elim (Bool-cases (less_columns s b a)) [
      | inl f ↦ ground (
        arith,
        less-order c b,
        less-order b a,
        less-order c a,
        order_trans s c b a (before c b h) (before b a f),
      )
      | inr f ↦ let same_rows : a ≡ b = less_connected a b e f in cc
    ]
  ]

promise_all-reading :
    {Row World : Type 0} (less : Row → Row → Bool) (bulks : List (List Row))
    (calls : List (Call Row World)) (rs : List Row) (w : World)
    → promise_all less (reading bulks calls) (rs, w)
      ≡ promise_all less calls (sort less (rs ++ concat bulks), w)
unfolding promise_all
promise_all-reading less [] calls rs w = rw (append-nil rs) refl
promise_all-reading less (new ∷ bulks) calls rs w =
    rw (promise_all-reading less bulks calls (rs ++ new) w, append_assoc rs new (concat bulks)) refl

-- What is printed after a reading, from the rows in their order.
pub printed-promise :
    {Row World : Type 0} (less : Row → Row → Bool) (bulks : List (List Row))
    (calls : List (Call Row World)) (w : World)
    → printed less (reading bulks calls) w
      ≡ some (promise_all less calls (sort less (concat bulks), w)).1
printed-promise less bulks calls w =
    let (d, e, k) = perform_all-promise_all less (reading bulks calls) w in
    rw (e, promise_all-reading less bulks calls [] w) refl

-- If `operator<` compares all columns of the rows, and every character array behind a text or a number
-- is the last column, then two readings that bring the same rows, in whatever order and bulks, are
-- followed by the same output, whatever calls come next.
pub printed-reading :
    {World : Type 0} (s : List Kind) (bulks bulks' : List (List (Columns s)))
    (calls : List (Call (Columns s) World)) (w : World)
    → sound s ≡ true
    → Reordered (concat bulks) (concat bulks')
    → printed (less_columns s) (reading bulks calls) w
      ≡ printed (less_columns s) (reading bulks' calls) w
printed-reading s bulks bulks' calls w is_sound p =
    let less = less_columns s in
    let sorted : sort less (concat bulks) ≡ sort less (concat bulks') =
      sort-Reordered less (less_asym s is_sound) (less_connected s is_sound)
        (less_between s is_sound) p in
    rw (printed-promise less bulks calls w, printed-promise less bulks' calls w, sorted) refl
