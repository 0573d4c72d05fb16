-- ===== src/Text/Names.antt =====
-- lib/nsPsCommon.cpp: `iMatchedBackward`, which compares two names from their ends.
use xtru.Common.{
  ltb, if◌then◌else◌, Bool-cases, Bytes, same, same_refl, same→eq, length, take, drop,
  length-append, take-append-drop, drop-append_length, ℕ, ◌-◌, ◌≡◌, sym, ◌↔◌, ◌⊎◌, inl, inr, Bool,
  true, [], ◌∷◌, ◌++◌, arith,
}

unfoldable pub matched_backward : Bytes → Bytes → Bool
matched_backward a b =
    let ia = length a in
    let ib = length b in
    if ltb ib ia
    then same (drop (ia - ib) a) b
    else if ltb ia ib
    then same (drop (ib - ia) b) a
    else same a b

-- One name ends with the other.
abbrev pub EndsWith : Bytes → Bytes → Type 0
EndsWith a b = (front : Bytes) × (a ≡ front ++ b)

EndsWith-of_same : (n : ℕ) (a b : Bytes) → same (drop n a) b ≡ true → EndsWith a b
EndsWith-of_same n a b h = (take n a, rw (← same→eq (drop n a) b h) (sym (take-append-drop n a)))

same_of_EndsWith :
    (front b : Bytes) → same (drop (length (front ++ b) - length b) (front ++ b)) b ≡ true
same_of_EndsWith front b =
    let e : length (front ++ b) - length b ≡ length front = omega (arith, length-append front b) in
    rw (e, drop-append_length front b) (same_refl b)

matched_backward_sound : (a b : Bytes) → matched_backward a b ≡ true → EndsWith a b ⊎ EndsWith b a
unfolding matched_backward
matched_backward_sound a b h = elim (Bool-cases (ltb (length b) (length a))) [
  | inl longer ↦ inl (EndsWith-of_same (length a - length b) a b (ground arith))
  | inr rest ↦ elim (Bool-cases (ltb (length a) (length b))) [
    | inl shorter ↦ inr (EndsWith-of_same (length b - length a) b a (ground arith))
    | inr equal ↦ inl (EndsWith-of_same 0 a b (ground arith))
  ]
]

matched_backward_front : (front b : Bytes) → matched_backward (front ++ b) b ≡ true
unfolding matched_backward
matched_backward_front [] b = ground (arith, same_refl b)
matched_backward_front (x ∷ front) b =
    ground (arith, same_of_EndsWith (x ∷ front) b, length-append front b)

matched_backward_back : (front a : Bytes) → matched_backward a (front ++ a) ≡ true
unfolding matched_backward
matched_backward_back [] a = ground (arith, same_refl a)
matched_backward_back (x ∷ front) a =
    ground (arith, same_of_EndsWith (x ∷ front) a, length-append front a)

matched_backward_complete :
    (a b : Bytes) → EndsWith a b ⊎ EndsWith b a → matched_backward a b ≡ true
matched_backward_complete a b (inl (front, e)) = rw e (matched_backward_front front b)
matched_backward_complete a b (inr (front, e)) = rw e (matched_backward_back front a)

-- `matched_backward` holds exactly when one of the two names ends with the other, in either order.
pub matched_backward_iff :
    (a b : Bytes) → (matched_backward a b ≡ true) ↔ (EndsWith a b ⊎ EndsWith b a)
matched_backward_iff a b = (matched_backward_sound a b, matched_backward_complete a b)
