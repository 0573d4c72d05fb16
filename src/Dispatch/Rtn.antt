-- ===== src/Dispatch/Rtn.antt =====
-- lib/cRtn.cpp: the class `cRtn`, the exit value of the process and the wish to go on.
use xtru.Common.{
  ◌==◌, if◌then◌else◌, Bool-cases, ℕ, zero, suc, ◌+◌, ◌*◌, ◌/◌, ◌%◌, ◌^◌, ◌<◌, ◌≡◌, refl, ◌≢◌, ◌⊎◌,
  inl, inr, Bool, true, false, ◌||◌, List, [], ◌∷◌, arith,
}
use native.Mathlib.Nat.{pow-suc}

-- The exit value by its 32 bits, and the identifiers of the running children.
pub record Rtn : Type 0 where
  pub value : ℕ
  pub cont : Bool
  pub pids : List ℕ

abbrev pub fresh_rtn : Rtn
fresh_rtn = record { value = 0; cont = true; pids = [] }

-- `operator()`
abbrev pub set_value : ℕ → Rtn → Rtn
set_value v r = record r { value = v }

-- `|` on `n` bits.
abbrev or_bit : ℕ → ℕ → ℕ
or_bit a b = if (a % 2 + b % 2) == 0 then 0 else 1

unfoldable or_bits : ℕ → ℕ → ℕ → ℕ
or_bits zero a b = 0
or_bits (suc n) a b = or_bit a b + 2 * or_bits n (a / 2) (b / 2)

unfoldable pub or_value : ℕ → Rtn → Rtn
unfolding or_bits
or_value rc r =
    let v = or_bits 32 r.value rc in
    record { value = v; cont = if v == 0 then r.cont else false; pids = r.pids }

-- `vBreak`: the state, and the processes that are sent `SIGTERM`.
unfoldable pub break_all : Rtn → Rtn × List ℕ
break_all r = (record r { cont = false }, r.pids)

-- A `std::set` holds an element once.
abbrev pub has : ℕ → List ℕ → Bool
has p [] = false
has p (q ∷ ps) = (p == q) || has p ps

unfoldable pub add_pid : ℕ → Rtn → Rtn
add_pid p r = record r { pids = if has p r.pids then r.pids else p ∷ r.pids }

abbrev pub remove : ℕ → List ℕ → List ℕ
remove p [] = []
remove p (q ∷ ps) = if p == q then remove p ps else q ∷ remove p ps

unfoldable pub del_pid : ℕ → Rtn → Rtn
del_pid p r = record r { pids = remove p r.pids }

or_bits_zero : (n a b : ℕ) → a < 2 ^ n → b < 2 ^ n → or_bits n a b ≡ 0 → (a ≡ 0) × (b ≡ 0)
unfolding or_bits
or_bits_zero zero a b ha hb e = (omega arith, omega arith)
or_bits_zero (suc n) a b ha hb e =
    let low : ((a % 2 ≡ 0) × (b % 2 ≡ 0)) × (or_bits n (a / 2) (b / 2) ≡ 0) = ground arith in
    let high =
      or_bits_zero n (a / 2) (b / 2) (omega (arith, pow-suc 2 n)) (omega (arith, pow-suc 2 n))
        low.1 in
    (omega (arith, high.0, low.0.0), omega (arith, high.1, low.0.1))

stop_test : (v : ℕ) (b : Bool) → v ≢ 0 → (if v == 0 then b else false) ≡ false
stop_test v b h = ground arith

-- When the value or what is or-ed to it is not zero, both of 32 bits, the value becomes one that is not
-- zero and the process is to stop.
pub or_value-stops :
    (rc : ℕ) (r : Rtn)
    → r.value < 2 ^ 32
    → rc < 2 ^ 32
    → (r.value ≢ 0) ⊎ (rc ≢ 0)
    → ((or_value rc r).value ≢ 0) × ((or_value rc r).cont ≡ false)
unfolding or_value
or_value-stops rc r hv hr some_bit =
    let v = or_bits 32 r.value rc in
    let nonzero : v ≢ 0 = λ e.
      let both = or_bits_zero 32 r.value rc hv hr e in
      elim some_bit [ inl h ↦ h both.0 | inr h ↦ h both.1 ] in
    (nonzero, stop_test v r.cont nonzero)

pub has-remove : (p : ℕ) (ps : List ℕ) → has p (remove p ps) ≡ false
has-remove p [] = refl
has-remove p (q ∷ ps) = elim (Bool-cases (p == q)) [
  | inl e ↦ rw e (has-remove p ps)
  | inr e ↦ rw (e, e) (has-remove p ps)
]
