-- ===== src/Text/Placeholders.antt =====
-- lib/nsEffector.cpp: `vConvPlaceHolder`, which puts values in place of each `%s` of an SQL text.
use xtru.Common.{
  ltb, ◌==◌, if◌then◌else◌, Bool-cases, Bytes, length, take, drop, length-append,
  take-append_length, drop-append_length, Result, ◌>>◌, guard, runtime_error, aborted, ok, err,
  find, find_from, is_none, is_empty, ℕ, zero, suc, ◌+◌, ◌≡◌, refl, sym, ap, ◌∙◌, ◌⊎◌, inl, inr,
  true, false, not, ◌&&◌, ◌||◌, Option, none, some, List, [], ◌∷◌, ◌++◌, append_assoc, arith,
}
use mathlib.Core.Option

abbrev pub place_holder : Bytes
place_holder = b'%' ∷ b's' ∷ []

-- The `while` loop. It ends when no place-holder is left or the values are used up.
unfoldable pub replace_loop : List Bytes → Bytes → Option ℕ → Bytes × List Bytes
unfolding find_from
replace_loop opts sql none = (sql, opts)
replace_loop [] sql (some pos) = (sql, [])
replace_loop (v ∷ opts) sql (some pos) =
    let sql' = take pos sql ++ (v ++ drop (pos + length place_holder) sql) in
    replace_loop opts sql' (find_from place_holder sql' (pos + length v))

unfoldable pub conv_place_holder : List Bytes → Bytes → Result Bytes
unfolding replace_loop find
conv_place_holder opts sql =
    let pos = find place_holder sql in
    let (sql', left) = replace_loop opts sql pos in
    do
      guard (is_none pos || not (is_empty opts)) aborted
      guard (is_empty left) runtime_error
      ok sql'

-- The reference: one pass over the text, which reads no inserted value again.
unfoldable pub fill : Bytes → List Bytes → Bytes
fill s [] = s
fill [] (v ∷ opts) = []
fill (c ∷ []) (v ∷ opts) = c ∷ []
fill (c ∷ d ∷ s) (v ∷ opts) =
    let hit = v ++ fill s opts in
    let miss = c ∷ fill (d ∷ s) (v ∷ opts) in if (c == b'%') && (d == b's') then hit else miss

-- How many place-holders a text has.
unfoldable pub holes : Bytes → ℕ
holes [] = 0
holes (c ∷ []) = 0
holes (c ∷ d ∷ s) =
    let hit = suc (holes s) in
    let miss = holes (d ∷ s) in if (c == b'%') && (d == b's') then hit else miss

abbrev Split : Bytes → Type 0
Split s =
    ((find place_holder s ≡ none) × (holes s ≡ 0) × ((opts : List Bytes) → fill s opts ≡ s))
    ⊎ ((l : Bytes) × (t : Bytes) × (s ≡ l ++ (place_holder ++ t))
        × (find place_holder s ≡ some (length l))
        × (holes s ≡ suc (holes t))
        × ((v : Bytes) (opts : List Bytes) → fill s (v ∷ opts) ≡ l ++ (v ++ fill t opts)))

fill-nil : (s : Bytes) → fill s [] ≡ s
unfolding fill
fill-nil [] = refl
fill-nil (c ∷ s) = refl

fill_short : (c : ℕ) (opts : List Bytes) → fill (c ∷ []) opts ≡ c ∷ []
unfolding fill
fill_short c [] = refl
fill_short c (v ∷ opts) = refl

fill_empty : (opts : List Bytes) → fill [] opts ≡ []
unfolding fill
fill_empty [] = refl
fill_empty (v ∷ opts) = refl

fill_miss :
    (c d : ℕ) (s : Bytes) (opts : List Bytes)
    → ((c == b'%') && (d == b's')) ≡ false
    → fill (c ∷ d ∷ s) opts ≡ c ∷ fill (d ∷ s) opts
unfolding fill
fill_miss c d s [] h = refl
fill_miss c d s (v ∷ opts) h = rw h refl

find_hit :
    (c d : ℕ) (s : Bytes)
    → ((c == b'%') && (d == b's')) ≡ true
    → (find place_holder (c ∷ d ∷ s) ≡ some 0)
      × (holes (c ∷ d ∷ s) ≡ suc (holes s))
      × (c ∷ d ∷ s ≡ place_holder ++ s)
unfolding find holes
find_hit c d s h = ground arith

find_miss :
    (c d : ℕ) (s : Bytes)
    → ((c == b'%') && (d == b's')) ≡ false
    → (find place_holder (c ∷ d ∷ s) ≡ Option.map suc (find place_holder (d ∷ s)))
      × (holes (c ∷ d ∷ s) ≡ holes (d ∷ s))
unfolding find holes
find_miss c d s h = ground arith

fill_hit :
    (c d : ℕ) (s v : Bytes) (opts : List Bytes)
    → ((c == b'%') && (d == b's')) ≡ true
    → fill (c ∷ d ∷ s) (v ∷ opts) ≡ v ++ fill s opts
unfolding fill
fill_hit c d s v opts h = rw h refl

split : (s : Bytes) → Split s
split [] = inl (unfold find in refl, unfold holes in refl, fill_empty)
split (c ∷ []) = inl (unfold find in ground arith, unfold holes in refl, fill_short c)
split (c ∷ d ∷ s) = elim (Bool-cases ((c == b'%') && (d == b's'))) [
  | inl hit ↦
      let (f, n, e) = find_hit c d s hit in
      inr ([], s, e, f, n, λ v opts. fill_hit c d s v opts hit)
  | inr miss ↦
      let (f, n) = find_miss c d s miss in
      elim (split (d ∷ s)) [
        | inl (e, z, k) ↦
            inl (
              rw f (rw e refl),
              n ∙ z,
              λ opts. rw (fill_miss c d s opts miss) (ap (◌∷◌ c) (k opts)),
            )
        | inr (l, t, q, e, z, k) ↦ inr (
          c ∷ l,
          t,
          ap (◌∷◌ c) q,
          rw f (rw e refl),
          n ∙ z,
          λ v opts. rw (fill_miss c d s (v ∷ opts) miss) (ap (◌∷◌ c) (k v opts)),
        )
      ]
]

-- One round at the first place-holder behind `pre ++ l`.
replaced :
    (pre l t v : Bytes)
    → take (length pre + length l) (pre ++ (l ++ (place_holder ++ t)))
        ++ (v
            ++ drop
                (length pre + length l + length place_holder)
                (pre ++ (l ++ (place_holder ++ t))))
      ≡ (pre ++ (l ++ v)) ++ t
replaced pre l t v =
    let e : length pre + length l ≡ length (pre ++ l) = omega (arith, length-append pre l) in
    let e2 : length pre + length l + length place_holder ≡ length ((pre ++ l) ++ place_holder) =
      omega (arith, length-append pre l, length-append (pre ++ l) place_holder) in
    rw
      (
        e2,
        e,
        ← append_assoc pre l (place_holder ++ t),
        take-append_length (pre ++ l) (place_holder ++ t),
      )
      (rw
        (
          ← append_assoc (pre ++ l) place_holder t,
          drop-append_length ((pre ++ l) ++ place_holder) t,
        )
        (simp append_assoc))

find_behind :
    (s t : Bytes) (k : ℕ)
    → k ≡ length s
    → find_from place_holder (s ++ t) k ≡ Option.map (λ i. length s + i) (find place_holder t)
unfolding find_from
find_behind s t k e = rw (e, drop-append_length s t) refl

replace_loop_round :
    (pre l t v : Bytes) (opts : List Bytes)
    → replace_loop (v ∷ opts) (pre ++ (l ++ (place_holder ++ t))) (some (length pre + length l))
      ≡ replace_loop opts
          ((pre ++ (l ++ v)) ++ t)
          (Option.map (λ i. length (pre ++ (l ++ v)) + i) (find place_holder t))
unfolding replace_loop
replace_loop_round pre l t v opts =
    let e : length pre + length l + length v ≡ length (pre ++ (l ++ v)) =
      omega (arith, length-append pre (l ++ v), length-append l v) in
    ap (λ x. replace_loop opts x (find_from place_holder x (length pre + length l + length v)))
      (replaced pre l t v)
    ∙ ap (replace_loop opts ((pre ++ (l ++ v)) ++ t)) (find_behind (pre ++ (l ++ v)) t _ e)

-- What the loop does from a position, for the values `opts`.
abbrev Fills : List Bytes → Type 0
Fills opts =
    (pre rest : Bytes)
    → replace_loop opts (pre ++ rest) (Option.map (λ i. length pre + i) (find place_holder rest))
      ≡ (pre ++ fill rest opts, drop (holes rest) opts)

Fills-nil : Fills []
Fills-nil pre rest = elim (split rest) [
  | inl (e, z, k) ↦ rw (e, z, k []) (unfold replace_loop in refl)
  | inr (l, t, q, e, z, k) ↦ rw (e, z, fill-nil rest) (unfold replace_loop in refl)
]

Fills-cons : (v : Bytes) (opts : List Bytes) → Fills opts → Fills (v ∷ opts)
Fills-cons v opts ih pre rest = elim (split rest) [
  | inl (e, z, k) ↦ rw (e, z, k (v ∷ opts)) (unfold replace_loop in refl)
  | inr (l, t, q, e, z, k) ↦
      rw (e, z, k v opts, q, replace_loop_round pre l t v opts, ih (pre ++ (l ++ v)) t)
        (simp append_assoc)
]

replace_loop-fill : (opts : List Bytes) → Fills opts
replace_loop-fill [] = Fills-nil
replace_loop-fill (v ∷ opts) = Fills-cons v opts (replace_loop-fill opts)

-- The conditions under which `conv_place_holder` stops, and its result.
abbrev pub conv_spec : List Bytes → Bytes → Result Bytes
conv_spec opts sql =
    if ltb 0 (holes sql) && is_empty opts
    then err aborted
    else if ltb (holes sql) (length opts)
    then err runtime_error
    else ok (fill sql opts)

is_empty-drop : (n : ℕ) (opts : List Bytes) → is_empty (drop n opts) ≡ not (ltb n (length opts))
is_empty-drop zero [] = ground arith
is_empty-drop zero (o ∷ opts) = ground arith
is_empty-drop (suc n) [] = ground arith
is_empty-drop (suc n) (o ∷ opts) = ground (arith, is_empty-drop n opts)

map-zero_add : (o : Option ℕ) → Option.map (λ i. 0 + i) o ≡ o
map-zero_add none = refl
map-zero_add (some i) = ground arith

replace_loop-start :
    (opts : List Bytes) (sql : Bytes)
    → replace_loop opts sql (find place_holder sql) ≡ (fill sql opts, drop (holes sql) opts)
replace_loop-start opts sql =
    ap (replace_loop opts sql) (sym (map-zero_add (find place_holder sql)))
    ∙ replace_loop-fill opts [] sql

is_none-find : (sql : Bytes) → is_none (find place_holder sql) ≡ not (ltb 0 (holes sql))
is_none-find sql = elim (split sql) [
  | inl (e, z, k) ↦ rw (e, z) refl
  | inr (l, t, q, e, z, k) ↦ rw (e, z) (ground arith)
]

-- A text with place-holders and no value at all violates the assertion; more values than
-- place-holders is an error; otherwise the values stand for the first place-holders in order, an
-- inserted value is not searched again, and place-holders beyond the values stay.
pub conv_place_holder_lem :
    (opts : List Bytes) (sql : Bytes) → conv_place_holder opts sql ≡ conv_spec opts sql
unfolding conv_place_holder
conv_place_holder_lem opts sql =
    rw (replace_loop-start opts sql, is_none-find sql, is_empty-drop (holes sql) opts)
      (ground arith)
