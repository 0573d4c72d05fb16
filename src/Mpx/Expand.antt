-- ===== src/Mpx/Expand.antt =====
-- app/mpx/cAppLocal.cpp: the place-holders of a command line are replaced by their values.
use xtru.Common.{
  ◌==◌, Bytes, length, drop, All, length-append, take-append_length, drop-append_length, ok, find,
  find_from, ℕ, zero, suc, ◌+◌, ◌≤◌, ◌<◌, ◌≡◌, refl, sym, ap, ◌∙◌, Bool, true, false, none, some,
  List, [], ◌∷◌, ◌++◌, append-nil, append_assoc, arith,
}
use mathlib.Core.Option
use xtru.Mpx.Lines.{run_length, head_byte, name_class, name_case, Table, replace_at, expand_loop}

-- A place-holder, by its name without the `$`, with its value and the text behind it.
pub record Slot : Type 0 where
  pub name : Bytes
  pub value : Bytes
  pub after : Bytes

abbrev pub spell : List Slot → Bytes
spell [] = []
spell (s ∷ ss) = b'$' ∷ (s.name ++ (s.after ++ spell ss))

abbrev pub fill : List Slot → Bytes
fill [] = []
fill (s ∷ ss) = s.value ++ (s.after ++ fill ss)

abbrev pub Free : Bytes → Type 0
Free = All (λ c. (b'$' == c) ≡ false)

-- The name is one run of its class: digits, or letters and digits that do not begin with a digit.
abbrev pub IsName : Bytes → Type 0
IsName name = (0 < length name) × All (λ c. name_class name c ≡ true) name

abbrev Stops : (ℕ → Bool) → Bytes → Type 0
Stops test [] = Unit
Stops test (c ∷ s) = test c ≡ false

abbrev Separates : Bytes → List Slot → Type 0
Separates after [] = Unit
Separates after (s ∷ ss) = 0 < length after

-- Each place-holder has its value in the table; the text behind it has no `$`, does not go on with the
-- name, and is not empty before another place-holder.
abbrev pub Expands : Table → List Slot → Type 0
Expands table [] = Unit
Expands table (s ∷ ss) =
    IsName s.name
    × Stops (name_class s.name) s.after
    × Free s.after
    × Separates s.after ss
    × (table (b'$' ∷ name_case s.name s.name) ≡ some s.value)
    × Expands table ss

find-Free :
    (text rest : Bytes) → Free text → find (b'$' ∷ []) (text ++ b'$' ∷ rest) ≡ some (length text)
unfolding find
find-Free [] rest h = refl
find-Free (c ∷ text) rest h = rw h.0 (ap (Option.map suc) (find-Free text rest h.1))

find-none : (text : Bytes) → Free text → find (b'$' ∷ []) text ≡ none
unfolding find
find-none [] h = refl
find-none (c ∷ text) h = rw h.0 (ap (Option.map suc) (find-none text h.1))

find_from-Free :
    (done text rest : Bytes)
    → Free text
    → find_from (b'$' ∷ []) (done ++ (text ++ b'$' ∷ rest)) (length done)
      ≡ some (length done + length text)
unfolding find_from
find_from-Free done text rest h =
    ap (λ s. Option.map (λ i. length done + i) (find (b'$' ∷ []) s))
      (drop-append_length done (text ++ b'$' ∷ rest))
    ∙ ap (Option.map (λ i. length done + i)) (find-Free text rest h)

find_from-none :
    (done text : Bytes) → Free text → find_from (b'$' ∷ []) (done ++ text) (length done) ≡ none
unfolding find_from
find_from-none done text h =
    ap (λ s. Option.map (λ i. length done + i) (find (b'$' ∷ []) s)) (drop-append_length done text)
    ∙ ap (Option.map (λ i. length done + i)) (find-none text h)

run_length-Stops :
    (test : ℕ → Bool) (name rest : Bytes)
    → All (λ c. test c ≡ true) name
    → Stops test rest
    → run_length test (name ++ rest) ≡ length name
unfolding run_length
run_length-Stops test [] [] h s = refl
run_length-Stops test [] (c ∷ rest) h s = rw s refl
run_length-Stops test (c ∷ name) rest h s = rw h.0 (ap suc (run_length-Stops test name rest h.1 s))

same_class : (name rest : Bytes) → 0 < length name → head_byte (name ++ rest) ≡ head_byte name
same_class [] rest h = absurd (omega arith)
same_class (c ∷ name) rest h = refl

-- The text behind a name stops it, also where it ends the line.
Stops-append :
    (test : ℕ → Bool) (after : Bytes) (ss : List Slot)
    → Stops test after
    → Separates after ss
    → Stops test (after ++ spell ss)
Stops-append test [] [] h sep = tt
Stops-append test [] (s ∷ ss) h sep = absurd (omega (arith, sep))
Stops-append test (c ∷ a) ss h sep = h

length-spell : (ss : List Slot) → length ss ≤ length (spell ss)
length-spell [] = omega arith
length-spell (s ∷ ss) = omega (
  arith,
  length-spell ss,
  length-append s.name (s.after ++ spell ss),
  length-append s.after (spell ss),
)

drop_mark : (p rest : Bytes) (c : ℕ) → drop (length p + 1) (p ++ c ∷ rest) ≡ rest
drop_mark p rest c =
    ap (λ k. drop k (p ++ c ∷ rest)) (omega (arith, length-append p (c ∷ [])))
    ∙ ap (drop (length (p ++ c ∷ []))) (sym (append_assoc p (c ∷ []) rest))
    ∙ drop-append_length (p ++ c ∷ []) rest

drop_beyond : (line : Bytes) → drop (length line + 1) line ≡ []
drop_beyond [] = refl
drop_beyond (c ∷ line) =
    let shift : length (c ∷ line) + 1 ≡ suc (length line + 1) = omega arith in
    ap (λ k. drop k (c ∷ line)) shift ∙ drop_beyond line

find_from-beyond : (line : Bytes) → find_from (b'$' ∷ []) line (length line + 1) ≡ none
unfolding find_from find
find_from-beyond line =
    ap (λ s. Option.map (λ i. length line + 1 + i) (find (b'$' ∷ []) s)) (drop_beyond line)

regroup : (p v a x : Bytes) (c : ℕ) → (p ++ (v ++ c ∷ [])) ++ (a ++ x) ≡ p ++ (v ++ (c ∷ a ++ x))
regroup p v a x c =
    append_assoc p (v ++ c ∷ []) (a ++ x) ∙ ap (λ s. p ++ s) (append_assoc v (c ∷ []) (a ++ x))

regroup-length : (p v : Bytes) (c : ℕ) → length (p ++ (v ++ c ∷ [])) ≡ length p + length v + 1
regroup-length p v c = omega (arith, length-append p (v ++ c ∷ []), length-append v (c ∷ []))

module _ (table : Table) where
  replace_at-name :
      (p name tail v : Bytes)
      → IsName name
      → Stops (name_class name) tail
      → table (b'$' ∷ name_case name name) ≡ some v
      → replace_at table (p ++ b'$' ∷ (name ++ tail)) (length p)
        ≡ some (p ++ (v ++ tail), length p + length v + 1)
  unfolding replace_at
  replace_at-name p name tail v hn hs ht =
      rw
        (
          drop_mark p (name ++ tail) b'$',
          same_class name tail hn.0,
          run_length-Stops (name_class name) name tail hn.1 hs,
          take-append_length name tail,
          drop-append_length name tail,
          take-append_length p (b'$' ∷ (name ++ tail)),
          ht,
        )
        refl

  expand_step :
      (fuel first : ℕ) (line : Bytes) (i : ℕ) (r : Bytes × ℕ)
      → find_from (b'$' ∷ []) line first ≡ some i
      → replace_at table line i ≡ some r
      → expand_loop table (suc fuel) line first ≡ expand_loop table fuel r.0 r.1
  unfolding expand_loop
  expand_step fuel first line i r hf hr = rw (hf, expand_loop, hr) refl

  expand_end :
      (fuel first : ℕ) (line : Bytes)
      → find_from (b'$' ∷ []) line first ≡ none
      → expand_loop table (suc fuel) line first ≡ some (ok line)
  unfolding expand_loop
  expand_end fuel first line hf = rw (hf, expand_loop) refl

  Continues : ℕ → List Slot → Type 0
  Continues fuel ss =
      (done text : Bytes)
      → Free text
      → expand_loop table fuel (done ++ (text ++ spell ss)) (length done)
        ≡ some (ok (done ++ (text ++ fill ss)))

  -- What stands behind a replaced place-holder; its first byte is not looked at again.
  expand_after :
      (fuel : ℕ) (p v after : Bytes) (ss : List Slot)
      → Continues fuel ss
      → 0 < fuel
      → Free after
      → Separates after ss
      → expand_loop table fuel (p ++ (v ++ (after ++ spell ss))) (length p + length v + 1)
        ≡ some (ok (p ++ (v ++ (after ++ fill ss))))
  unfolding Continues
  expand_after zero p v [] [] ih pos free sep = absurd (omega arith)
  expand_after (suc fuel) p v [] [] ih pos free sep =
      let line = p ++ (v ++ []) in
      let place : length p + length v + 1 ≡ length line + 1 =
        omega (arith, length-append p (v ++ []), length-append v []) in
      expand_end fuel (length p + length v + 1) line
        (ap (find_from (b'$' ∷ []) line) place ∙ find_from-beyond line)
  expand_after fuel p v [] (s ∷ ss) ih pos free sep = absurd (omega (arith, sep))
  expand_after fuel p v (c ∷ a) ss ih pos free sep =
      ap (λ l. expand_loop table fuel l (length p + length v + 1))
        (sym (regroup p v a (spell ss) c))
      ∙ ap (expand_loop table fuel ((p ++ (v ++ c ∷ [])) ++ (a ++ spell ss)))
          (sym (regroup-length p v c))
      ∙ ih (p ++ (v ++ c ∷ [])) a free.1
      ∙ ap (λ l. some (ok l)) (regroup p v a (fill ss) c)

  expand-Continues :
      (ss : List Slot) (fuel : ℕ) → Expands table ss → length ss < fuel → Continues fuel ss
  unfolding Continues
  expand-Continues ss zero he le done text free = absurd (omega arith)
  expand-Continues [] (suc fuel) he le done text free =
      expand_end fuel (length done) (done ++ (text ++ [])) (
        ap (λ s. find_from (b'$' ∷ []) (done ++ s) (length done)) (append-nil text)
        ∙ find_from-none done text free)
  expand-Continues (s ∷ ss) (suc fuel) (hn, hs, hf, sep, ht, he) le done text free =
      let p = done ++ text in
      let tail = s.after ++ spell ss in
      let here = b'$' ∷ (s.name ++ tail) in
      let found : find_from (b'$' ∷ []) (p ++ here) (length done) ≡ some (length p) =
        ap (λ l. find_from (b'$' ∷ []) l (length done)) (append_assoc done text here)
        ∙ find_from-Free done text (s.name ++ tail) free
        ∙ ap some (sym (length-append done text)) in
      ap (λ l. expand_loop table (suc fuel) l (length done)) (sym (append_assoc done text here))
      ∙ expand_step fuel (length done) (p ++ here) (length p)
          (p ++ (s.value ++ tail), length p + length s.value + 1) found
          (replace_at-name p s.name tail s.value hn
            (Stops-append (name_class s.name) s.after ss hs sep) ht)
      ∙ expand_after fuel p s.value s.after ss (expand-Continues ss fuel he (omega arith))
          (omega arith) hf sep
      ∙ ap (λ l. some (ok l)) (append_assoc done text (s.value ++ (s.after ++ fill ss)))

-- A line of a text without `$` and of place-holders, each with its value in the table and with a text
-- behind it that does not go on with its name, has no `$` and is not empty before the next one, is
-- expanded, within its fuel, to the line that has the values in place of the place-holders.
pub expand_loop-fill :
    (table : Table) (lead : Bytes) (ss : List Slot)
    → Free lead
    → Expands table ss
    → expand_loop table (length (lead ++ spell ss) + 1) (lead ++ spell ss) 0
      ≡ some (ok (lead ++ fill ss))
unfolding Continues
expand_loop-fill table lead ss free he =
    expand-Continues table ss (length (lead ++ spell ss) + 1) he
      (omega (arith, length-append lead (spell ss), length-spell ss)) [] lead free
