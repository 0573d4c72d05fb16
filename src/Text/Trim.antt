-- ===== src/Text/Trim.antt =====
-- lib/nsEffector.cpp: `vTrim` and `trim`, which take the bytes of a set off both ends of a text.
use mathlib.Core.Option
use xtru.Common.{
  ◌==◌, if◌then◌else◌, Bool-cases, Bytes, length, take, drop, All, length-append,
  take-append_length, drop-append_length, ℕ, suc, ◌+◌, ◌-◌, ◌≡◌, refl, sym, ap, ◌∙◌, ◌⊎◌, inl, inr,
  Bool, true, false, ◌||◌, Option, none, some, [], ◌∷◌, ◌++◌, append_assoc, arith,
}

unfoldable pub is_in : Bytes → ℕ → Bool
is_in [] c = false
is_in (d ∷ set) c = c == d || is_in set c

-- `std::string::find_first_not_of`; `none` is `npos`.
unfoldable pub find_first_not_of : Bytes → Bytes → Option ℕ
find_first_not_of set [] = none
find_first_not_of set (c ∷ s) =
    if is_in set c then Option.map suc (find_first_not_of set s) else some 0

unfoldable pub find_last_not_of : Bytes → Bytes → Option ℕ
find_last_not_of set [] = none
find_last_not_of set (c ∷ s) = elim (find_last_not_of set s) [
  | some i ↦ some (suc i)
  | none ↦ if is_in set c then none else some 0
]

-- `str.substr(pos, n)`.
abbrev pub substr : Bytes → ℕ → ℕ → Bytes
substr s pos n = take n (drop pos s)

-- With `right == npos` the count `right - left + 1` reaches past the end.
unfoldable pub trim : Bytes → Bytes → Bytes
unfolding find_first_not_of find_last_not_of is_in
trim set str = elim (find_first_not_of set str) [
  | none ↦ []
  | some left ↦ elim (find_last_not_of set str) [
    | none ↦ drop left str
    | some right ↦ substr str left (right - left + 1)
  ]
]

abbrev pub white_space : Bytes
white_space = b' ' ∷ 9 ∷ 11 ∷ 13 ∷ 10 ∷ []

regroup : (m u : Bytes) (d : ℕ) → m ++ d ∷ u ≡ (m ++ d ∷ []) ++ u
regroup m u d = sym (append_assoc m (d ∷ []) u)

same_head : (m u t : Bytes) (c d : ℕ) → c ∷ t ≡ m ++ d ∷ u → (n : Bytes) × (m ++ d ∷ [] ≡ c ∷ n)
same_head [] u t c d e = ([], cc)
same_head (x ∷ m) u t c d e = (m ++ d ∷ [], cc)

module _ (set : Bytes) where
  abbrev pub Within : Bytes → Type 0
  Within = All (λ c. is_in set c ≡ true)

  abbrev Outside : ℕ → Type 0
  Outside c = is_in set c ≡ false

  abbrev First : Bytes → Type 0
  First s =
      ((find_first_not_of set s ≡ none) × Within s)
      ⊎ ((l : Bytes) × (c : ℕ) × (t : Bytes) × (s ≡ l ++ c ∷ t)
          × Within l
          × Outside c
          × (find_first_not_of set s ≡ some (length l)))

  First-split : (s : Bytes) → First s
  unfolding find_first_not_of
  First-split [] = inl (refl, tt)
  First-split (x ∷ s) = elim (Bool-cases (is_in set x)) [
    | inr out ↦ inr ([], x, s, refl, tt, out, rw out refl)
    | inl within ↦ elim (First-split s) [
      | inl (e, w) ↦ inl (rw (within, e) refl, (within, w))
      | inr (l, c, t, eq, w, o, e) ↦
          inr (x ∷ l, c, t, ap (◌∷◌ x) eq, (within, w), o, rw (within, e) refl)
    ]
  ]

  abbrev Last : Bytes → Type 0
  Last s =
      ((find_last_not_of set s ≡ none) × Within s)
      ⊎ ((l : Bytes) × (c : ℕ) × (t : Bytes) × (s ≡ l ++ c ∷ t)
          × Within t
          × Outside c
          × (find_last_not_of set s ≡ some (length l)))

  Last-split : (s : Bytes) → Last s
  unfolding find_last_not_of
  Last-split [] = inl (refl, tt)
  Last-split (x ∷ s) = elim (Last-split s) [
    | inr (l, c, t, eq, w, o, e) ↦
        inr (x ∷ l, c, t, ap (◌∷◌ x) eq, w, o, rw (e, find_last_not_of) refl)
    | inl (e, w) ↦ elim (Bool-cases (is_in set x)) [
      | inl within ↦ inl (rw (e, find_last_not_of) (rw within refl), (within, w))
      | inr out ↦ inr ([], x, s, refl, w, out, rw (e, find_last_not_of) (rw out refl))
    ]
  ]

  find_last-append :
      (l s : Bytes) (k : ℕ)
      → find_last_not_of set s ≡ some k
      → find_last_not_of set (l ++ s) ≡ some (length l + k)
  unfolding find_last_not_of
  find_last-append [] s k e = rw e (ground arith)
  find_last-append (x ∷ l) s k e = rw (find_last-append l s k e, find_last_not_of) (ground arith)

  take_to : (m u : Bytes) (d n : ℕ) → take (n + length m - n + 1) (m ++ d ∷ u) ≡ m ++ d ∷ []
  take_to m u d n =
      let e : n + length m - n + 1 ≡ length (m ++ d ∷ []) =
        omega (arith, length-append m (d ∷ [])) in
      rw (e, ← append_assoc m (d ∷ []) u) (take-append_length (m ++ d ∷ []) u)

  -- What is left has no byte of the set at either end.
  abbrev pub Bare : Bytes → Type 0
  Bare r =
      (m : Bytes) × (n : Bytes) × (c : ℕ) × (d : ℕ) × (r ≡ c ∷ n)
      × (r ≡ m ++ d ∷ [])
      × Outside c
      × Outside d

  abbrev pub Trimmed : Bytes → Bytes → Type 0
  Trimmed s r =
      ((r ≡ []) × Within s)
      ⊎ ((l : Bytes) × (u : Bytes) × (s ≡ l ++ (r ++ u)) × Within l × Within u × Bare r)

  trim_at :
      (l m u : Bytes) (d : ℕ)
      → find_first_not_of set (l ++ (m ++ d ∷ u)) ≡ some (length l)
      → find_last_not_of set (m ++ d ∷ u) ≡ some (length m)
      → trim set (l ++ (m ++ d ∷ u)) ≡ m ++ d ∷ []
  unfolding trim
  trim_at l m u d first last =
      rw (first, trim)
        (rw (find_last-append l (m ++ d ∷ u) (length m) last, trim)
          (rw (drop-append_length l (m ++ d ∷ u)) (take_to m u d (length l))))

  trim-none : (s : Bytes) → find_first_not_of set s ≡ none → trim set s ≡ []
  unfolding trim
  trim-none s e = rw (e, trim) refl

  trim-Trimmed_inner :
      (s l : Bytes) (c : ℕ) (t : Bytes)
      → s ≡ l ++ c ∷ t
      → Within l
      → Outside c
      → find_first_not_of set s ≡ some (length l)
      → Last (c ∷ t)
      → Trimmed s (trim set s)
  trim-Trimmed_inner s l c t eq wl oc first (inl (_, wc)) = cc (wc.0)
  trim-Trimmed_inner s l c t eq wl oc first (inr (m, d, u, eq', wu, od, last)) =
      let whole : s ≡ l ++ (m ++ d ∷ u) = eq ∙ ap (◌++◌ l) eq' in
      let result : trim set s ≡ m ++ d ∷ [] =
        rw whole (trim_at l m u d (rw whole at first) (rw eq' at last)) in
      let (n, head) = same_head m u t c d eq' in
      inr (
        l,
        u,
        whole ∙ ap (◌++◌ l) (regroup m u d ∙ ap (λ r. r ++ u) (sym result)),
        wl,
        wu,
        (m, n, c, d, result ∙ head, result, oc, od),
      )

  -- `vTrim` splits the text in three: bytes of the set, the result, bytes of the set. The result is
  -- empty, with the whole text made of bytes of the set, or begins and ends with other bytes.
  pub trim-Trimmed : (s : Bytes) → Trimmed s (trim set s)
  trim-Trimmed s = elim (First-split s) [
    | inl (e, w) ↦ inl (trim-none s e, w)
    | inr (l, c, t, eq, w, o, e) ↦ trim-Trimmed_inner s l c t eq w o e (Last-split (c ∷ t))
  ]
