-- ===== src/Text/Cascade.antt =====
-- inc/nsPsCommon.h: the cascades that compare one text with several, and lib/nsPsCommon.cpp: the comparison
-- of a pair. The comparator of the C library is a parameter, as its test for 0.
use xtru.Common.{
  ltb, ◌==◌, if◌then◌else◌, Bool-cases, Bytes, same, length, take, All, ℕ, suc, ◌≡◌, refl, ap, ◌∙◌,
  subst, ◌↔◌, ◌⊎◌, inl, inr, Bool, true, false, ◌&&◌, ◌||◌, List, [], ◌∷◌, ◌++◌, arith,
}

module _ (binary : Bytes → Bytes → Bool) (lhs : Bytes) where
  -- `iCompBinary` and `iCascadeBinaryAnd`
  unfoldable pub cascade_binary_and : List Bytes → Bool
  cascade_binary_and [] = true
  cascade_binary_and (rhs ∷ args) = binary lhs rhs && cascade_binary_and args

  -- `iCascadeBinaryOr`
  unfoldable pub cascade_binary_or : List Bytes → Bool
  cascade_binary_or [] = false
  cascade_binary_or (rhs ∷ args) = binary lhs rhs || cascade_binary_or args

-- `len_lhs < len_rhs ? len_lhs : len_rhs`
abbrev shorter : Bytes → Bytes → ℕ
shorter lhs rhs = if ltb (length lhs) (length rhs) then length lhs else length rhs

module _ (ternary : Bytes → Bytes → ℕ → Bool) (lhs : Bytes) where
  -- `iCompTernary` and `iCascadeTernaryAnd`
  unfoldable pub cascade_ternary_and : List Bytes → Bool
  cascade_ternary_and [] = true
  cascade_ternary_and (rhs ∷ args) = ternary lhs rhs (shorter lhs rhs) && cascade_ternary_and args

  -- `iCascadeTernaryOr`
  unfoldable pub cascade_ternary_or : List Bytes → Bool
  cascade_ternary_or [] = false
  cascade_ternary_or (rhs ∷ args) = ternary lhs rhs (shorter lhs rhs) || cascade_ternary_or args

-- What the C library documents of `strncmp` for texts without a byte 0.
abbrev pub ComparesFirst : (Bytes → Bytes → ℕ → Bool) → Type 0
ComparesFirst ternary = (s t : Bytes) (n : ℕ) → ternary s t n ≡ same (take n s) (take n t)

-- One of the two texts begins with the other.
abbrev pub BeginsWith : Bytes → Bytes → Type 0
BeginsWith s t = (rest : Bytes) × (s ≡ t ++ rest)

abbrev pub Related : Bytes → Bytes → Type 0
Related s t = BeginsWith s t ⊎ BeginsWith t s

-- Some element of a list.
abbrev pub Some : (Bytes → Type 0) → List Bytes → Type 0
Some P [] = ⊥
Some P (x ∷ xs) = P x ⊎ Some P xs

-- The comparison up to the shorter length, by the first bytes.
agree : Bytes → Bytes → Bool
agree [] t = true
agree (a ∷ s) [] = true
agree (a ∷ s) (b ∷ t) = (a == b) && agree s t

shorter-suc : (a b : ℕ) (s t : Bytes) → shorter (a ∷ s) (b ∷ t) ≡ suc (shorter s t)
shorter-suc a b s t = ground arith

agree_lem : (s t : Bytes) → same (take (shorter s t) s) (take (shorter s t) t) ≡ agree s t
unfolding agree
agree_lem [] [] = refl
agree_lem [] (b ∷ t) = ground arith
agree_lem (a ∷ s) [] = ground arith
agree_lem (a ∷ s) (b ∷ t) = rw (shorter-suc a b s t) (ap (λ k. (a == b) && k) (agree_lem s t))

Related-cons : (a : ℕ) (s t : Bytes) → Related s t → Related (a ∷ s) (a ∷ t)
Related-cons a s t (inl (rest, e)) = inl (rest, ap (◌∷◌ a) e)
Related-cons a s t (inr (rest, e)) = inr (rest, ap (◌∷◌ a) e)

agree-Related : (s t : Bytes) → agree s t ≡ true → Related s t
unfolding agree
agree-Related [] t h = inr (t, refl)
agree-Related (a ∷ s) [] h = inl (a ∷ s, refl)
agree-Related (a ∷ s) (b ∷ t) h =
    let e : a ≡ b = ground arith in
    let k : agree s t ≡ true = ground arith in
    subst (λ c. Related (a ∷ s) (c ∷ t)) e (Related-cons a s t (agree-Related s t k))

agree_front : (s rest : Bytes) → agree (s ++ rest) s ≡ true
unfolding agree
agree_front [] [] = refl
agree_front [] (c ∷ rest) = refl
agree_front (a ∷ s) rest = ground (arith, agree_front s rest)

agree_behind : (s rest : Bytes) → agree s (s ++ rest) ≡ true
unfolding agree
agree_behind [] rest = refl
agree_behind (a ∷ s) rest = ground (arith, agree_behind s rest)

Related-agree : (s t : Bytes) → Related s t → agree s t ≡ true
Related-agree s t (inl (rest, e)) = rw e (agree_front t rest)
Related-agree s t (inr (rest, e)) = rw e (agree_behind s rest)

module _ (ternary : Bytes → Bytes → ℕ → Bool) (lhs : Bytes) (compares : ComparesFirst ternary) where
  compared : (rhs : Bytes) → ternary lhs rhs (shorter lhs rhs) ≡ agree lhs rhs
  compared rhs = compares lhs rhs (shorter lhs rhs) ∙ agree_lem lhs rhs

  or-Some :
      (args : List Bytes) → cascade_ternary_or ternary lhs args ≡ true → Some (Related lhs) args
  unfolding cascade_ternary_or
  or-Some [] h = ground arith
  or-Some (rhs ∷ args) h = elim (Bool-cases (agree lhs rhs)) [
    | inl e ↦ inl (agree-Related lhs rhs e)
    | inr e ↦ inr (or-Some args (ground (arith, compared rhs)))
  ]

  Some-or :
      (args : List Bytes) → Some (Related lhs) args → cascade_ternary_or ternary lhs args ≡ true
  unfolding cascade_ternary_or
  Some-or [] h = absurd h
  Some-or (rhs ∷ args) (inl r) = rw (compared rhs, Related-agree lhs rhs r) refl
  Some-or (rhs ∷ args) (inr rest) = ground (arith, Some-or args rest)

  and-All :
      (args : List Bytes) → cascade_ternary_and ternary lhs args ≡ true → All (Related lhs) args
  unfolding cascade_ternary_and
  and-All [] h = tt
  and-All (rhs ∷ args) h =
      let e : agree lhs rhs ≡ true = ground (arith, compared rhs) in
      (agree-Related lhs rhs e, and-All args (ground arith))

  All-and :
      (args : List Bytes) → All (Related lhs) args → cascade_ternary_and ternary lhs args ≡ true
  unfolding cascade_ternary_and
  All-and [] h = refl
  All-and (rhs ∷ args) h = rw (compared rhs, Related-agree lhs rhs h.0) (All-and args h.1)

  -- With the documented `strncmp`, the cascade with "or" holds exactly when the left text begins with one of
  -- the others or one of the others begins with it, and the cascade with "and" exactly when that is so for
  -- each of them.
  pub cascade_ternary_iff :
      (args : List Bytes)
      → ((cascade_ternary_or ternary lhs args ≡ true) ↔ Some (Related lhs) args)
        × ((cascade_ternary_and ternary lhs args ≡ true) ↔ All (Related lhs) args)
  cascade_ternary_iff args = ((or-Some args, Some-or args), (and-All args, All-and args))
