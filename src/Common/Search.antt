-- ===== src/Common/Search.antt =====
-- `std::string::find`, from the start or from a position.
use Prim.Native.Nat.{ℕ, suc, ◌+◌, ◌≤◌}
use mathlib.Core.Bool.{Bool, true, false, ◌&&◌}
use mathlib.Core.List.{List, [], ◌∷◌, ◌++◌, append_assoc}
use mathlib.Core.Option
use mathlib.Core.Option.{Option, none, some}
use mathlib.Core.Path.{◌≡◌, refl, ap, sym, ◌∙◌}
use native.Mathlib.Omega.{arith}
use xtru.Common.Tests.{Bytes, ◌==◌, if◌then◌else◌}
use xtru.Common.Lists.{drop, length, length-append}

abbrev pub starts_with : Bytes → Bytes → Bool
starts_with [] s = true
starts_with (p ∷ ps) [] = false
starts_with (p ∷ ps) (c ∷ s) = (p == c) && starts_with ps s

-- `none` is `npos`.
unfoldable pub find : Bytes → Bytes → Option ℕ
find p [] = if starts_with p [] then some 0 else none
find p (c ∷ s) = if starts_with p (c ∷ s) then some 0 else Option.map suc (find p s)

unfoldable pub find_from : Bytes → Bytes → ℕ → Option ℕ
unfolding find
find_from p s k = Option.map (λ i. k + i) (find p (drop k s))

abbrev pub is_none {ℓ} : {A : Type ℓ} → Option A → Bool
is_none none = true
is_none (some a) = false

abbrev pub is_empty {ℓ} : {A : Type ℓ} → List A → Bool
is_empty [] = true
is_empty (x ∷ xs) = false

pub starts_with-append :
    (p s r : Bytes) → length p ≤ length s → starts_with p (s ++ r) ≡ starts_with p s
starts_with-append [] s r h = refl
starts_with-append (x ∷ p) [] r h = absurd (omega arith)
starts_with-append (x ∷ p) (c ∷ s) r h =
    ap (λ b. (x == c) && b) (starts_with-append p s r (omega arith))

pub starts_with_self : (p r : Bytes) → starts_with p (p ++ r) ≡ true
starts_with_self [] r = refl
starts_with_self (x ∷ p) r = ground (arith, starts_with_self p r)

find_at_start : (p s : Bytes) → starts_with p s ≡ true → find p s ≡ some 0
unfolding find
find_at_start p [] h = rw h refl
find_at_start p (c ∷ s) h = rw h refl

find_later :
    (c : ℕ) (p s : Bytes) (k : ℕ)
    → find p (c ∷ s) ≡ some (suc k)
    → (starts_with p (c ∷ s) ≡ false) × (find p s ≡ some k)
unfolding find
find_later c p s k h = ground arith

find_skip :
    (c : ℕ) (p s : Bytes) (k : ℕ)
    → starts_with p (c ∷ s) ≡ false
    → find p s ≡ some k
    → find p (c ∷ s) ≡ some (suc k)
unfolding find
find_skip c p s k h e = rw (h, e) refl

-- What stands behind an occurrence does not change where it is found.
pub find-append :
    (p t r : Bytes) → find p (t ++ p) ≡ some (length t) → find p (t ++ (p ++ r)) ≡ some (length t)
find-append p [] r h = find_at_start p (p ++ r) (starts_with_self p r)
find-append p (c ∷ t) r h =
    let (miss, later) = find_later c p (t ++ p) (length t) h in
    find_skip c p (t ++ (p ++ r)) (length t)
      (ap (λ s. starts_with p (c ∷ s)) (sym (append_assoc t p r))
        ∙ starts_with-append p (c ∷ (t ++ p)) r (omega (arith, length-append t p))
        ∙ miss)
      (find-append p t r later)
