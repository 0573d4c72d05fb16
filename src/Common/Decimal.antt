-- ===== src/Common/Decimal.antt =====
-- A number as a stream or a format prints it in decimal, and the reading of such a text.
use mathlib.Core.Logic.{dite, dif_pos, dif_neg}
use mathlib.Core.WellFounded.{Acc}
use native.Mathlib.Bridge.{le_prop}
use native.Mathlib.Nat.{le_trans, pow-suc}
use native.Mathlib.Decide.{dec_lt}
use xtru.Common.Order.{lt_wf}
use xtru.Common.Tests.{Bytes}
use xtru.Common.Lists.{length, All}
use Prim.Native.Nat.{ℕ, zero, suc, ◌+◌, ◌-◌, ◌*◌, ◌/◌, ◌%◌, ◌^◌, ◌≤◌, ◌<◌}
use mathlib.Core.List.{[], ◌∷◌}
use mathlib.Core.Path.{◌≡◌, ap, ◌∙◌}
use native.Mathlib.Omega.{arith}

pub tenth-lt : {n : ℕ} → 9 < n → n / 10 < n
tenth-lt h = omega arith

decimal_loop : (n : ℕ) → Acc ◌<◌ n → Bytes → Bytes
decimal_loop n (Acc.intro _ smaller) out =
    dite (dec_lt 9 n)
      (λ h. decimal_loop (n / 10) (smaller (n / 10) (tenth-lt h)) ((b'0' + n % 10) ∷ out))
      (λ _. (b'0' + n) ∷ out)

unfoldable pub decimal : ℕ → Bytes
unfolding decimal_loop lt_wf dec_lt
decimal n = decimal_loop n (lt_wf.apply n) []

unfoldable pub number_behind : ℕ → Bytes → ℕ
number_behind n [] = n
number_behind n (c ∷ s) = number_behind (n * 10 + (c - b'0')) s

number_digit :
    (n d : ℕ) (s : Bytes) → number_behind n ((b'0' + d) ∷ s) ≡ number_behind (n * 10 + d) s
unfolding number_behind
number_digit n d s = ap (λ k. number_behind k s) (omega arith)

decimal_loop-number :
    (n : ℕ) (w : Acc ◌<◌ n) (out : Bytes)
    → number_behind 0 (decimal_loop n w out) ≡ number_behind n out
unfolding decimal_loop
decimal_loop-number n (Acc.intro _ smaller) out = elim (dec_lt 9 n) [
  | yes p ↦ rw (dif_pos _ le_prop p) (
      decimal_loop-number (n / 10) (smaller (n / 10) (tenth-lt p)) ((b'0' + n % 10) ∷ out)
      ∙ number_digit (n / 10) (n % 10) out
      ∙ ap (λ k. number_behind k out) (omega arith))
  | no p ↦ rw (dif_neg _ p) (number_digit 0 n out ∙ ap (λ k. number_behind k out) (omega arith))
]

pub number-decimal : (n : ℕ) → number_behind 0 (decimal n) ≡ n
unfolding decimal number_behind
number-decimal n = decimal_loop-number n (lt_wf.apply n) []

tenth_of_pow : (k n : ℕ) → n < 10 ^ suc (suc k) → n / 10 < 10 ^ suc k
tenth_of_pow k n h = omega (arith, pow-suc 10 (suc k))

decimal_loop-length :
    (k n : ℕ) (w : Acc ◌<◌ n) (out : Bytes)
    → n < 10 ^ suc k
    → length (decimal_loop n w out) ≤ suc k + length out
unfolding decimal_loop
decimal_loop-length zero n (Acc.intro _ smaller) out h = elim (dec_lt 9 n) [
  | yes p ↦ absurd (omega arith)
  | no p ↦ rw (dif_neg _ p) (omega arith)
]
decimal_loop-length (suc k) n (Acc.intro _ smaller) out h = elim (dec_lt 9 n) [
  | yes p ↦ rw (dif_pos _ le_prop p) (
      le_trans
        (decimal_loop-length k (n / 10) (smaller (n / 10) (tenth-lt p)) ((b'0' + n % 10) ∷ out)
          (tenth_of_pow k n h))
        (omega arith))
  | no p ↦ rw (dif_neg _ p) (omega arith)
]

-- A number below a power of ten has at most as many digits.
pub length-decimal-le : (k n : ℕ) → n < 10 ^ suc k → length (decimal n) ≤ suc k
unfolding decimal
length-decimal-le k n h = omega (arith, decimal_loop-length k n (lt_wf.apply n) [] h)

module _ {κ} (P : ℕ → Type κ) (digit : (k : ℕ) → k < 10 → P (b'0' + k)) where
  decimal_loop-All :
      (n : ℕ) (w : Acc ◌<◌ n) (out : Bytes) → All P out → All P (decimal_loop n w out)
  unfolding decimal_loop
  decimal_loop-All n (Acc.intro _ smaller) out h = elim (dec_lt 9 n) [
    | yes p ↦ rw (dif_pos _ le_prop p) (
        decimal_loop-All (n / 10) (smaller (n / 10) (tenth-lt p)) ((b'0' + n % 10) ∷ out)
          (digit (n % 10) (omega arith), h))
    | no p ↦ rw (dif_neg _ p) (digit n (omega arith), h)
  ]

  -- What holds of the ten digits holds of each byte of a number in decimal.
  pub All-decimal : (n : ℕ) → All P (decimal n)
  unfolding decimal
  All-decimal n = decimal_loop-All n (lt_wf.apply n) [] tt
