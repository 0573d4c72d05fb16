-- ===== src/Args/Taken.antt =====
-- app/mkcrd/nsCompo/cArgUtils.cpp: what `iSearchOpt` takes off the command line.
use xtru.Common.{
  ltb, leb, ◌==◌, if◌then◌else◌, ==_refl, Bool-cases, Option-cases, Bytes, same, same_refl, same→eq,
  length, All, length-append, Result, runtime_error, err, ok, ℕ, zero, suc, ◌≤◌, ◌<◌, ◌≡◌, refl,
  sym, ap, ◌∙◌, subst, ◌≢◌, ◌⊎◌, inl, inr, Bool, true, false, Option, none, some, List, [], ◌∷◌,
  ◌++◌, arith,
}
use mathlib.Core.Option
use xtru.Args.Search.{
  SwitchUtils, ArgUtils, member, is_switch, lookup_tag, get_switches, split_at, take_args,
  take_switch, search_synonyms, search_opt,
}

abbrev Split : Bytes → List Bytes → Option (List Bytes × List Bytes) → Type 0
Split s ts none = member s ts ≡ false
Split s ts (some r) = ts ≡ r.0 ++ s ∷ r.1

Split-later :
    (s t : Bytes) (ts : List Bytes) (o : Option (List Bytes × List Bytes))
    → same s t ≡ false
    → Split s ts o
    → Split s (t ∷ ts) (Option.map (λ r. (t ∷ r.0, r.1)) o)
Split-later s t ts none e h = rw e h
Split-later s t ts (some r) e h = ap (λ x. t ∷ x) h

split_at-Split : (s : Bytes) (ts : List Bytes) → Split s ts (split_at s ts)
unfolding split_at
split_at-Split s [] = refl
split_at-Split s (t ∷ ts) = elim (Bool-cases (same s t)) [
  | inl e ↦ rw e (ap (λ x. x ∷ ts) (sym (same→eq s t e)))
  | inr e ↦ rw e (Split-later s t ts (split_at s ts) e (split_at-Split s ts))
]

-- Arguments: no switches, at most `n` of them, and as many as there are.
abbrev Arguments : SwitchUtils → ℕ → List Bytes → List Bytes × List Bytes → Type 0
Arguments su n ts r = (ts ≡ r.0 ++ r.1) × All (λ t. is_switch su t ≡ false) r.0 × (length r.0 ≤ n)

take_args-Arguments :
    (su : SwitchUtils) (n : ℕ) (ts : List Bytes) → Arguments su n ts (take_args su n ts)
unfolding take_args
take_args-Arguments su zero ts = (refl, tt, omega arith)
take_args-Arguments su (suc n) [] = (refl, tt, omega arith)
take_args-Arguments su (suc n) (t ∷ ts) = elim (Bool-cases (is_switch su t)) [
  | inl e ↦ rw e (refl, tt, omega arith)
  | inr e ↦
      let (whole, plain, few) = take_args-Arguments su n ts in
      rw e (ap (λ x. t ∷ x) whole, (e, plain), omega (arith, few))
]

-- What a search leaves. Found: a synonym and its arguments, none of which is a switch and whose number is
-- within the limits, are moved from one place of the operands behind the switches taken so far, the tag is
-- recorded, and the group, of which no switch was found before, now has this one, the other groups what
-- they had. Not found: no synonym is an operand, and nothing changes.
abbrev pub Searched :
    SwitchUtils → Bytes → ℕ → ℕ → ℕ → List Bytes → ArgUtils → Bool × ArgUtils → Type 0
Searched su tag grp low high synonyms a (true, a') =
    (before : List Bytes) × (s : Bytes) × (args : List Bytes) × (behind : List Bytes) × (a.operands
      ≡ before ++ (s ∷ args ++ behind))
    × (a'.operands ≡ before ++ behind)
    × (a'.taken ≡ a.taken ++ s ∷ args)
    × (member s synonyms ≡ true)
    × All (λ t. is_switch su t ≡ false) args
    × (low ≤ length args)
    × (length args ≤ high)
    × (member tag a'.available ≡ true)
    × (a.exclusive grp ≡ [])
    × (a'.exclusive grp ≡ s ∷ [])
    × ((g : ℕ) → g ≢ grp → a'.exclusive g ≡ a.exclusive g)
Searched su tag grp low high synonyms a (false, a') =
    All (λ s. member s a.operands ≡ false) synonyms × (a' ≡ a)

-- Why a search throws: a synonym is an operand, and either another switch of its group was found before,
-- or fewer arguments follow it than it needs.
abbrev pub Refused : SwitchUtils → ℕ → ℕ → ℕ → List Bytes → ArgUtils → Type 0
Refused su grp low high synonyms a =
    (s : Bytes) × (parts : List Bytes × List Bytes) × (split_at s a.operands ≡ some parts)
    × (member s synonyms ≡ true)
    × ((0 < length (a.exclusive grp)) ⊎ (length (take_args su high parts.1).0 < low))

abbrev pub SearchEnds :
    SwitchUtils → Bytes → ℕ → ℕ → ℕ → List Bytes → ArgUtils → Result (Bool × ArgUtils) → Type 0
SearchEnds su tag grp low high synonyms a (ok r) = Searched su tag grp low high synonyms a r
SearchEnds su tag grp low high synonyms a (err e) =
    (e ≡ runtime_error) × Refused su grp low high synonyms a

member_self : (s : Bytes) (ts : List Bytes) → member s (s ∷ ts) ≡ true
member_self s ts = rw (same_refl s) refl

recorded :
    (tag : Bytes) (ts : List Bytes) → member tag (if member tag ts then ts else tag ∷ ts) ≡ true
recorded tag ts = elim (Bool-cases (member tag ts)) [
  | inl e ↦ rw (e, e) refl
  | inr e ↦ rw e (member_self tag ts)
]

group_used :
    (group : List Bytes) (s : Bytes) → ltb (length (group ++ s ∷ [])) 2 ≡ false → 0 < length group
group_used group s h = ground (arith, length-append group (s ∷ []))

group_free : (group : List Bytes) (s : Bytes) → ltb (length (group ++ s ∷ [])) 2 ≡ true → group ≡ []
group_free [] s h = refl
group_free (t ∷ group) s h = absurd (ground (arith, length-append group (s ∷ [])))

marked_group :
    (grp : ℕ) (group : List Bytes) (groups : ℕ → List Bytes)
    → ((if grp == grp then group else groups grp) ≡ group)
      × ((g : ℕ) → g ≢ grp → (if g == grp then group else groups g) ≡ groups g)
marked_group grp group groups = (rw (==_refl grp) refl, λ g ne. ground arith)

too_few : (low n : ℕ) → leb low n ≡ false → n < low
too_few low n h = ground arith

enough : (low n : ℕ) → leb low n ≡ true → low ≤ n
enough low n h = ground arith

module _ (su : SwitchUtils) (tag : Bytes) (grp low high : ℕ) where
  take_switch-SearchEnds :
      (s : Bytes) (synonyms : List Bytes) (parts : List Bytes × List Bytes) (a : ArgUtils)
      → member s synonyms ≡ true
      → split_at s a.operands ≡ some parts
      → SearchEnds su tag grp low high synonyms a (take_switch su tag grp low high s parts a)
  unfolding take_switch
  take_switch-SearchEnds s synonyms parts a hm hs =
      let args = (take_args su high parts.1).0 in
      let behind = (take_args su high parts.1).1 in
      let (whole, plain, few) = take_args-Arguments su high parts.1 in
      let at_s : a.operands ≡ parts.0 ++ s ∷ parts.1 =
        subst (Split s a.operands) hs (split_at-Split s a.operands) in
      elim (Bool-cases (ltb (length (a.exclusive grp ++ s ∷ [])) 2)) [
        | inr used ↦ rw used (refl, (s, parts, hs, hm, inl (group_used (a.exclusive grp) s used)))
        | inl free ↦
            let unused = group_free (a.exclusive grp) s free in
            let marked = marked_group grp (a.exclusive grp ++ s ∷ []) a.exclusive in
            elim (Bool-cases (leb low (length args))) [
              | inr short ↦
                  rw (free, short) (refl, (s, parts, hs, hm, inr (too_few low (length args) short)))
              | inl fits ↦
                  rw (free, fits)
                    (
                      parts.0,
                      s,
                      args,
                      behind,
                      at_s ∙ ap (λ x. parts.0 ++ s ∷ x) whole,
                      refl,
                      refl,
                      hm,
                      plain,
                      enough low (length args) fits,
                      few,
                      recorded tag a.available,
                      unused,
                      marked.0 ∙ ap (λ g. g ++ s ∷ []) unused,
                      marked.1,
                    )
            ]
      ]

  SearchEnds-skip :
      (s : Bytes) (synonyms : List Bytes) (a : ArgUtils) (r : Result (Bool × ArgUtils))
      → member s a.operands ≡ false
      → SearchEnds su tag grp low high synonyms a r
      → SearchEnds su tag grp low high (s ∷ synonyms) a r
  SearchEnds-skip s synonyms a (err e) h (er, (t, parts, hs, hm, why)) =
      (er, (t, parts, hs, ground (arith, hm), why))
  SearchEnds-skip s synonyms a (ok (false, a')) h (none_found, kept) = ((h, none_found), kept)
  SearchEnds-skip s synonyms a (ok (true, a')) h
        (b, t, args, behind, e0, e1, e2, hm, plain, lo, hi, rec, unused, marked, others) =
      (
        b,
        t,
        args,
        behind,
        e0,
        e1,
        e2,
        ground (arith, hm),
        plain,
        lo,
        hi,
        rec,
        unused,
        marked,
        others,
      )

  search_synonyms_miss :
      (s : Bytes) (synonyms : List Bytes) (a : ArgUtils)
      → split_at s a.operands ≡ none
      → search_synonyms su tag grp low high (s ∷ synonyms) a
        ≡ search_synonyms su tag grp low high synonyms a
  unfolding search_synonyms
  search_synonyms_miss s synonyms a e = rw (e, search_synonyms) refl

  search_synonyms_hit :
      (s : Bytes) (synonyms : List Bytes) (parts : List Bytes × List Bytes) (a : ArgUtils)
      → split_at s a.operands ≡ some parts
      → search_synonyms su tag grp low high (s ∷ synonyms) a
        ≡ take_switch su tag grp low high s parts a
  unfolding search_synonyms
  search_synonyms_hit s synonyms parts a e = rw (e, search_synonyms) refl

  search_synonyms-SearchEnds :
      (synonyms : List Bytes) (a : ArgUtils)
      → SearchEnds su tag grp low high synonyms a (search_synonyms su tag grp low high synonyms a)
  search_synonyms-SearchEnds [] a = unfold search_synonyms in (tt, refl)
  search_synonyms-SearchEnds (s ∷ synonyms) a = elim (Option-cases (split_at s a.operands)) [
    | inl e ↦
        let absent : member s a.operands ≡ false =
          subst (Split s a.operands) e (split_at-Split s a.operands) in
        rw (search_synonyms_miss s synonyms a e) (
          SearchEnds-skip s synonyms a (search_synonyms su tag grp low high synonyms a) absent
            (search_synonyms-SearchEnds synonyms a))
    | inr (parts, e) ↦
        rw (search_synonyms_hit s synonyms parts a e)
          (take_switch-SearchEnds s (s ∷ synonyms) parts a (member_self s synonyms) e)
  ]

search_opt_found :
    (su : SwitchUtils) (tag : Bytes) (grp low high : ℕ)
    (normalize : List Bytes → List Bytes → List Bytes) (a : ArgUtils) (synonyms : List Bytes)
    → lookup_tag tag su.usable ≡ some synonyms
    → search_opt su tag grp low high normalize a
      ≡ search_synonyms su tag grp low high synonyms
          (if ltb 0 low then record a { operands = normalize synonyms a.operands } else a)
unfolding search_opt
search_opt_found su tag grp low high normalize a synonyms h = rw (h, get_switches) refl

-- For a tag that was registered, `iSearchOpt` on the operands, separated first if arguments are needed,
-- returns true with one switch and its arguments moved and its group, empty before, marked by it, or false with nothing changed and no synonym among
-- the operands, or throws for one of the two reasons of `Refused`.
pub search_opt-SearchEnds :
    (su : SwitchUtils) (tag : Bytes) (grp low high : ℕ)
    (normalize : List Bytes → List Bytes → List Bytes) (a : ArgUtils) (synonyms : List Bytes)
    → lookup_tag tag su.usable ≡ some synonyms
    → SearchEnds su tag grp low high synonyms
        (if ltb 0 low then record a { operands = normalize synonyms a.operands } else a)
        (search_opt su tag grp low high normalize a)
search_opt-SearchEnds su tag grp low high normalize a synonyms h =
    let b = if ltb 0 low then record a { operands = normalize synonyms a.operands } else a in
    rw (search_opt_found su tag grp low high normalize a synonyms h)
      (search_synonyms-SearchEnds su tag grp low high synonyms b)
