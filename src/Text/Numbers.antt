-- ===== src/Text/Numbers.antt =====
-- inc/nsEffector.h: `sIntToa`, a number with a comma between groups of three digits, and
-- `sBinIntToIntStr`, a number of bytes with a unit. Both stand at `int64_t`, given as its bit pattern.
use xtru.Common.{
  ltb, leb, ◌==◌, if◌then◌else◌, ltb→lt, Bool-cases, Bytes, codes, length, get_elem?, Result, guard,
  ◌>>=◌, ◌>>◌, fault, ok, ℕ, zero, suc, ◌+◌, ◌-◌, ◌*◌, ◌/◌, ◌%◌, ◌^◌, ◌≤◌, ◌<◌, ◌≡◌, refl, ap, ◌∙◌,
  ◌≢◌, ◌⊎◌, inl, inr, Bool, true, false, not, ◌&&◌, Option, none, some, [], ◌∷◌, ◌++◌, arith,
}
use mathlib.Core.Logic.{dite, dif_pos, dif_neg}
use mathlib.Core.WellFounded.{Acc}
use native.Mathlib.Bridge.{le_prop}
use native.Mathlib.Decide.{dec_lt, ℕ_discrete}
use mathlib.Core.Option
use xtru.Common.Order.{lt_wf}

-- `iSign >>= sizeof(iInt) * 8 - 1` is -1 at a negative number and 0 otherwise.
unfoldable pub is_negative : ℕ → Bool
is_negative x = leb (2 ^ 63) x

-- The absolute value.
unfoldable pub absolute : ℕ → ℕ
unfolding is_negative
absolute x = if is_negative x then 2 ^ 64 - x else x

-- `(iInt ^ -1) + 1` at a negative number; at the least one the addition overflows, which is undefined.
unfoldable pub magnitude : ℕ → Result ℕ
unfolding absolute
magnitude x = guard (not (x == 2 ^ 63)) fault >> ok (absolute x)

-- The loops test `> 0` and `> 10000` on a signed value, so a negative pattern counts as 0 there.
unfoldable pub positive_part : ℕ → ℕ
unfolding is_negative
positive_part x = if is_negative x then 0 else x

abbrev comma : ℕ
comma = b','

abbrev is_full : ℕ → ℕ → Bool
is_full interval i = ltb 0 interval && ltb 0 i && i % interval == 0

abbrev separated : ℕ → ℕ → Bytes → Bytes
separated interval i out = if is_full interval i then comma ∷ out else out

-- `for (i = 0; iInt > 0; i++)`. The source appends to `sInv` and reverses it at the end; `out` is
-- that text as it is read from its end.
int_to_a_loop : ℕ → (n : ℕ) → Acc ◌<◌ n → ℕ → Bytes → ℕ × Bytes
int_to_a_loop interval n (Acc.intro _ smaller) i out =
    dite (dec_lt 0 n)
      (λ h.
        int_to_a_loop interval (n / 10) (smaller (n / 10) (omega arith)) (i + 1)
          ((b'0' + n % 10) ∷ separated interval i out))
      (λ _. (i, out))

abbrev pub sign_char : ℕ → ℕ
sign_char x = if is_negative x then b'-' else b' '

unfoldable pub grouped_digits : ℕ → ℕ → ℕ × Bytes
unfolding int_to_a_loop lt_wf dec_lt
grouped_digits interval n = int_to_a_loop interval n (lt_wf.apply n) 0 []

abbrev or_zero : ℕ × Bytes → Bytes
or_zero (i, out) = if i == 0 then b'0' ∷ out else out

unfoldable pub int_to_a : ℕ → ℕ → Result Bytes
int_to_a interval x =
    magnitude x >>= λ m. ok (sign_char x ∷ or_zero (grouped_digits interval (positive_part m)))

-- The number that digits and commas spell behind `n`.
unfoldable pub value : ℕ → Bytes → ℕ
value n [] = n
value n (c ∷ s) = value (if c == comma then n else n * 10 + (c - b'0')) s

value_digit : (n d : ℕ) (s : Bytes) → d < 10 → value n ((b'0' + d) ∷ s) ≡ value (n * 10 + d) s
unfolding value
value_digit n d s h = ap (λ k. value k s) (ground arith)

value_comma : (n : ℕ) (b : Bool) (s : Bytes) → value n (if b then comma ∷ s else s) ≡ value n s
unfolding value
value_comma n true s = refl
value_comma n false s = refl

int_to_a_loop-value :
    (interval n : ℕ) (w : Acc ◌<◌ n) (i : ℕ) (out : Bytes)
    → value 0 (int_to_a_loop interval n w i out).1 ≡ value n out
unfolding int_to_a_loop
int_to_a_loop-value interval n (Acc.intro _ smaller) i out = elim (dec_lt 0 n) [
  | yes p ↦ rw (dif_pos _ le_prop p) (
      int_to_a_loop-value interval (n / 10) (smaller (n / 10) (omega arith)) (i + 1) _
      ∙ value_digit (n / 10) (n % 10) _ (omega arith)
      ∙ ap (λ k. value k (separated interval i out)) (omega arith)
      ∙ value_comma n (is_full interval i) out)
  | no p ↦ rw (dif_neg _ p) (ap (λ k. value k out) (omega arith))
]

-- A character is a comma exactly where three more than a multiple of four characters follow it.
abbrev pub Grouped : Bytes → Type 0
Grouped [] = Unit
Grouped (c ∷ s) = ((c == comma) ≡ (length s % 4 == 3)) × Grouped s

-- The text of `i` digits has a comma before every group of three but the first.
abbrev Width : ℕ → Bytes → Type 0
Width i out = (i ≡ 0) × (out ≡ []) ⊎ (0 < i) × (length out ≡ i + (i - 1) / 3) × Grouped out

abbrev next_text : ℕ → ℕ → Bytes → Bytes
next_text n i out = (b'0' + n % 10) ∷ separated 3 i out

Width-next : (n i : ℕ) (out : Bytes) → Width i out → Width (i + 1) (next_text n i out)
Width-next n i out (inl (e, q)) =
    inr (omega arith, rw (e, q) (ground arith), rw (e, q) (ground arith))
Width-next n i out (inr (p, e, g)) = elim (Bool-cases (i % 3 == 0)) [
  | inl full ↦ inr (omega arith, ground arith, ground arith)
  | inr room ↦ inr (omega arith, ground arith, ground arith)
]

int_to_a_loop-Width :
    (n : ℕ) (w : Acc ◌<◌ n) (i : ℕ) (out : Bytes)
    → Width i out
    → Width (int_to_a_loop 3 n w i out).0 (int_to_a_loop 3 n w i out).1
unfolding int_to_a_loop
int_to_a_loop-Width n (Acc.intro _ smaller) i out h = elim (dec_lt 0 n) [
  | yes p ↦ rw (dif_pos _ le_prop p) (
      int_to_a_loop-Width (n / 10) (smaller (n / 10) (omega arith)) (i + 1) _
        (Width-next n i out h))
  | no p ↦ rw (dif_neg _ p) h
]

-- The text behind the sign: it spells the number, and is grouped by threes.
abbrev pub Spells : ℕ → Bytes → Type 0
Spells n s = (value 0 s ≡ n) × Grouped s × (0 < length s)

or_zero-Spells : (n : ℕ) (r : ℕ × Bytes) → value 0 r.1 ≡ n → Width r.0 r.1 → Spells n (or_zero r)
unfolding value
or_zero-Spells n (i, out) v (inl (e, q)) =
    let z : n ≡ 0 = rw (← v, q) refl in rw (e, q, z) (refl, (refl, tt), omega arith)
or_zero-Spells n (zero, out) v (inr (p, e, g)) = absurd (omega arith)
or_zero-Spells n (suc i, out) v (inr (p, e, g)) =
    let shape : or_zero (suc i, out) ≡ out = ground arith in rw shape (v, g, omega arith)

grouped_digits-Spells : (n : ℕ) → Spells n (or_zero (grouped_digits 3 n))
unfolding grouped_digits value
grouped_digits-Spells n =
    or_zero-Spells n (int_to_a_loop 3 n (lt_wf.apply n) 0 [])
      (int_to_a_loop-value 3 n (lt_wf.apply n) 0 [])
      (int_to_a_loop-Width n (lt_wf.apply n) 0 [] (inl (refl, refl)))

magnitude-absolute : (x : ℕ) → x ≢ 2 ^ 63 → magnitude x ≡ ok (absolute x)
unfolding magnitude absolute
magnitude-absolute x ne = ground arith

positive_part-absolute : (x : ℕ) → x < 2 ^ 64 → x ≢ 2 ^ 63 → positive_part (absolute x) ≡ absolute x
unfolding positive_part absolute
positive_part-absolute x h ne = ground arith

-- The print of a number that is not the least one is its sign, then digits with a comma before every
-- group of three but the first, which spell its absolute value.
pub int_to_a-Spells :
    (x : ℕ)
    → x < 2 ^ 64
    → x ≢ 2 ^ 63
    → (s : Bytes) × (int_to_a 3 x ≡ ok (sign_char x ∷ s)) × Spells (absolute x) s
unfolding int_to_a
int_to_a-Spells x h ne = (
  or_zero (grouped_digits 3 (absolute x)),
  rw (magnitude-absolute x ne, positive_part-absolute x h ne) refl,
  grouped_digits-Spells (absolute x),
)

-- `iInvExp`: 1/1024 to the power `k`, by shifts.
unfoldable pub inv_exp : ℕ → ℕ → ℕ
inv_exp m zero = m
inv_exp m (suc k) = inv_exp m k / 1024

-- `while (iInvExp(iMantissa, iIndex) > 10000) iIndex++;` on fuel.
unfoldable pub find_index : ℕ → ℕ → ℕ → Option ℕ
unfolding inv_exp
find_index zero m k = none
find_index (suc f) m k =
    let next = find_index f m (suc k) in if ltb 10000 (inv_exp m k) then next else some k

-- The characters of `sSyms`, without its final NUL.
abbrev pub symbols : Bytes
symbols = codes ".kMGTP"

-- `iInt >> k`, an arithmetic shift.
unfoldable pub shift_right : ℕ → ℕ → ℕ
unfolding is_negative
shift_right x k = if is_negative x then x / 2 ^ k + (2 ^ 64 - 2 ^ 64 / 2 ^ k) else x / 2 ^ k

-- `lexical_cast` prints an `int64_t`. `none` stands for fuel that ran out, and for an index behind
-- the last symbol.
unfoldable pub bin_int_to_int_str : (ℕ → Bytes) → ℕ → Bytes → Result (Option Bytes)
unfolding find_index shift_right
bin_int_to_int_str lexical_cast x space = magnitude x >>= λ m.
    ok (elim (find_index 6 (positive_part m) 0) [
      | none ↦ none
      | some k ↦
          Option.map (λ c. lexical_cast (shift_right x (k * 10)) ++ (space ++ c ∷ []))
            (get_elem? symbols k)
    ])

-- The least index at which the mantissa is at most 10000.
abbrev pub Least : ℕ → ℕ → Type 0
Least m k = (inv_exp m k ≤ 10000) × ((j : ℕ) → j < k → 10000 < inv_exp m j)

abbrev Above : ℕ → ℕ → Type 0
Above m k = (j : ℕ) → j < k → 10000 < inv_exp m j

Above-suc : (m k : ℕ) → Above m k → 10000 < inv_exp m k → Above m (suc k)
Above-suc m k h p j lt = elim (ℕ_discrete j k) [ yes e ↦ rw e p | no ne ↦ h j (omega arith) ]

find_index_more :
    (f m k : ℕ) → ltb 10000 (inv_exp m k) ≡ true → find_index (suc f) m k ≡ find_index f m (suc k)
unfolding find_index
find_index_more f m k h = rw h refl

find_index_stop : (f m k : ℕ) → ltb 10000 (inv_exp m k) ≡ false → find_index (suc f) m k ≡ some k
unfolding find_index
find_index_stop f m k h = rw h refl

find_index-Least :
    (f m k last : ℕ)
    → inv_exp m last ≤ 10000
    → last + 1 ≡ f + k
    → k ≤ last
    → Above m k
    → (r : ℕ) × (find_index f m k ≡ some r) × Least m r × (r ≤ last)
find_index-Least zero m k last h e p a = absurd (omega arith)
find_index-Least (suc f) m k last h e p a = elim (Bool-cases (ltb 10000 (inv_exp m k))) [
  | inr stop ↦ (k, find_index_stop f m k stop, (ground arith, a), p)
  | inl more ↦ elim (ℕ_discrete k last) [
    | yes z ↦ absurd (let big : 10000 < inv_exp m last = rw (← z) (ltb→lt _ _ more) in omega arith)
    | no nz ↦
        let (r, eq, least, le) =
          find_index-Least f m (suc k) last h (omega arith) (omega arith)
            (Above-suc m k a (ltb→lt _ _ more)) in
        (r, find_index_more f m k more ∙ eq, least, le)
  ]
]

absolute-lt : (x : ℕ) → x < 2 ^ 64 → x ≢ 2 ^ 63 → absolute x < 2 ^ 63
unfolding absolute
absolute-lt x h ne = ground arith

inv_exp_five : (m : ℕ) → m < 2 ^ 63 → inv_exp m 5 ≤ 10000
unfolding inv_exp
inv_exp_five m h = omega arith

symbol_at : (k : ℕ) → k ≤ 5 → (c : ℕ) × (get_elem? symbols k ≡ some c)
symbol_at zero h = (b'.', refl)
symbol_at (suc zero) h = (b'k', refl)
symbol_at (suc (suc zero)) h = (b'M', refl)
symbol_at (suc (suc (suc zero))) h = (b'G', refl)
symbol_at (suc (suc (suc (suc zero)))) h = (b'T', refl)
symbol_at (suc (suc (suc (suc (suc zero))))) h = (b'P', refl)
symbol_at (suc (suc (suc (suc (suc (suc k)))))) h = absurd (omega arith)

-- For every `int64_t` but the least one the loop ends, at the least index at which the absolute value
-- divided by a power of 1024 is at most 10000, the index is that of a unit, and the result is the shifted
-- number with that unit.
pub bin_int_to_int_str_lem :
    (lexical_cast : ℕ → Bytes) (x : ℕ) (space : Bytes)
    → x < 2 ^ 64
    → x ≢ 2 ^ 63
    → (k : ℕ) × (c : ℕ) × Least (absolute x) k
      × (get_elem? symbols k ≡ some c)
      × (bin_int_to_int_str lexical_cast x space
          ≡ ok (some (lexical_cast (shift_right x (k * 10)) ++ (space ++ c ∷ []))))
unfolding bin_int_to_int_str
bin_int_to_int_str_lem lexical_cast x space h ne =
    let m = absolute x in
    let small : m < 2 ^ 63 = absolute-lt x h ne in
    let (k, e, least, le) =
      find_index-Least 6 m 0 5 (inv_exp_five m small) (omega arith) (omega arith)
        (λ j lt. absurd (omega arith)) in
    let (c, q) = symbol_at k le in
    (
      k,
      c,
      least,
      q,
      rw (magnitude-absolute x ne, positive_part-absolute x h ne, e, bin_int_to_int_str)
          (rw q refl),
    )
