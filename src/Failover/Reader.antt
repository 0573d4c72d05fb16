-- ===== src/Failover/Reader.antt =====
-- lib/sql/occi/cFailover.cpp: a reader of the statements that `vAlterSession` sends.
use xtru.Common.{
  ◌==◌, if◌then◌else◌, Bytes, codes, same, length, drop, All, starts_with, ℕ, zero, suc, ◌≡◌, refl,
  ap, Bool, true, false, ◌||◌, Option, none, some, List, [], ◌∷◌, ◌++◌, append_assoc, arith,
}
use mathlib.Core.Option
use xtru.Failover.Session.{StmtType, str_param, int_param, event, Param}

-- The reader: the text before the first byte of a kind, and what is left from there.
unfoldable span : (ℕ → Bool) → Bytes → Bytes × Bytes
span stop [] = ([], [])
span stop (c ∷ s) = let rest = span stop s in if stop c then ([], c ∷ s) else (c ∷ rest.0, rest.1)

abbrev pub is_blank : ℕ → Bool
is_blank c = c == 32

abbrev pub is_quote : ℕ → Bool
is_quote c = c == 39

abbrev pub ends_word : ℕ → Bool
ends_word c = is_blank c || c == b'='

abbrev pub ends_number : ℕ → Bool
ends_number c = is_blank c || is_quote c

abbrev pub Named : Type 0
Named = Bytes × Param

abbrev pub named : Bytes → StmtType → Bytes → Named
named k t v = (k, record { stmt_type = t; value = v })

-- A value up to a quotation mark, and what follows the mark.
unfoldable read_quoted : Bytes → StmtType → Bytes → Named × Bytes
unfolding span
read_quoted k t s = let r = span is_quote s in (named k t r.0, drop 1 r.1)

-- Behind the sign of equality.
unfoldable read_value : Bytes → Bytes → Named × Bytes
unfolding read_quoted
read_value k [] = (named k int_param [], [])
read_value k (c ∷ s) =
    let r = span is_blank (c ∷ s) in
    if is_quote c then read_quoted k str_param s else (named k int_param r.0, r.1)

-- Behind the word `events` and a blank.
unfoldable read_event : Bytes → Option (Named × Bytes)
unfolding read_quoted
read_event [] = none
read_event (c ∷ s) =
    let r = span is_blank s in
    if is_quote c then some (read_quoted r.0 event (drop 1 r.1)) else none

unfoldable read_behind : Bytes → Bytes → Option (Named × Bytes)
unfolding read_value read_event
read_behind k [] = none
read_behind k (c ∷ s) =
    if c == b'='
    then some (read_value k s)
    else if same k (codes "events")
    then read_event s
    else none

unfoldable read_clause : Bytes → Option (Named × Bytes)
unfolding read_behind
read_clause s = let r = span ends_word s in read_behind r.0 r.1

-- All clauses, each behind a blank, on fuel.
unfoldable pub read_clauses : ℕ → Bytes → Option (List Named)
unfolding read_clause
read_clauses n [] = some []
read_clauses zero (c ∷ s) = none
read_clauses (suc n) (c ∷ s) =
    if is_blank c
    then elim (read_clause s) [
      | none ↦ none
      | some r ↦ Option.map (λ ps. r.0 ∷ ps) (read_clauses n r.1)
    ]
    else none

abbrev pub opening : Bytes
opening = codes "alter session set"

unfoldable pub read_statement : Bytes → Option (List Named)
unfolding read_clauses
read_statement s =
    let text = drop (length opening) s in
    if starts_with opening s then read_clauses (length text) text else none

-- The parameters of the statements in their order.
unfoldable pub read_statements : List Bytes → Option (List Named)
unfolding read_statement
read_statements [] = some []
read_statements (s ∷ ss) = elim (read_statement s) [
  | none ↦ none
  | some ps ↦ Option.map (λ qs. ps ++ qs) (read_statements ss)
]

abbrev pub Free : (ℕ → Bool) → Bytes → Type 0
Free stop = All (λ c. stop c ≡ false)

-- The reader can tell where the key and the value end: the source does not escape anything in them.
abbrev pub Spelled : Named → Type 0
Spelled (k, p) = elim p.stmt_type [
  | str_param ↦ Free ends_word k × Free is_quote p.value
  | int_param ↦ Free ends_word k × Free ends_number p.value
  | event ↦ Free is_blank k × Free is_quote p.value
]

abbrev pub Stops : (ℕ → Bool) → Bytes → Type 0
Stops stop [] = Unit
Stops stop (c ∷ s) = stop c ≡ true

span-append :
    (stop : ℕ → Bool) (s r : Bytes) → Free stop s → Stops stop r → span stop (s ++ r) ≡ (s, r)
unfolding span
span-append stop [] [] h k = refl
span-append stop [] (c ∷ r) h k = rw k refl
span-append stop (c ∷ s) r h k = rw (h.0, span-append stop s r h.1 k) refl

read_quoted-append :
    (k : Bytes) (t : StmtType) (v rest : Bytes)
    → Free is_quote v
    → read_quoted k t (v ++ (39 ∷ rest)) ≡ (named k t v, rest)
unfolding read_quoted
read_quoted-append k t v rest h = rw (span-append is_quote v (39 ∷ rest) h refl) refl

number_byte : (c : ℕ) → ends_number c ≡ false → (is_blank c ≡ false) × (is_quote c ≡ false)
number_byte c h = ground arith

Free-number : (v : Bytes) → Free ends_number v → Free is_blank v
Free-number [] h = tt
Free-number (c ∷ v) h = ((number_byte c h.0).0, Free-number v h.1)

read_value-number :
    (k v rest : Bytes)
    → Free ends_number v
    → Stops is_blank rest
    → read_value k (v ++ rest) ≡ (named k int_param v, rest)
unfolding read_value span
read_value-number k [] [] h e = refl
read_value-number k [] (c ∷ rest) h e =
    let plain : is_quote c ≡ false = ground (arith, e) in rw (plain, e) refl
read_value-number k (c ∷ v) rest h e =
    rw
      (
        (number_byte c h.0).1,
        (number_byte c h.0).0,
        span-append is_blank v rest (Free-number v h.1) e,
      )
      refl

-- A clause behind its blank.
abbrev pub clause : Bytes → StmtType → Bytes → Bytes
clause k str_param v = k ++ (codes "='" ++ (v ++ codes "'"))
clause k int_param v = k ++ (codes "=" ++ v)
clause k event v = codes "events '" ++ (k ++ (codes " " ++ (v ++ codes "'")))

read_clause-clause :
    (k : Bytes) (t : StmtType) (v rest : Bytes)
    → Spelled (named k t v)
    → Stops is_blank rest
    → read_clause (clause k t v ++ rest) ≡ some (named k t v, rest)
unfolding read_clause read_behind read_value read_event span
read_clause-clause k str_param v rest h e =
    rw
      (
        append_assoc k (codes "='" ++ (v ++ codes "'")) rest,
        append_assoc v (codes "'") rest,
        span-append ends_word k (codes "='" ++ (v ++ (39 ∷ rest))) h.0 refl,
      )
      (ap some (read_quoted-append k str_param v rest h.1))
read_clause-clause k int_param v rest h e =
    rw
      (
        append_assoc k (codes "=" ++ v) rest,
        span-append ends_word k (codes "=" ++ (v ++ rest)) h.0 refl,
      )
      (ap some (read_value-number k v rest h.1 e))
read_clause-clause k event v rest h e =
    rw
      (
        append_assoc k (codes " " ++ (v ++ codes "'")) rest,
        append_assoc v (codes "'") rest,
        span-append is_blank k (codes " " ++ (v ++ (39 ∷ rest))) h.0 refl,
      )
      (ap some (read_quoted-append k event v rest h.1))

pub read_clauses-clause :
    (n : ℕ) (k : Bytes) (t : StmtType) (v rest : Bytes)
    → Spelled (named k t v)
    → Stops is_blank rest
    → read_clauses (suc n) (32 ∷ (clause k t v ++ rest))
      ≡ Option.map (λ ps. named k t v ∷ ps) (read_clauses n rest)
unfolding read_clauses
read_clauses-clause n k t v rest h e = rw (read_clause-clause k t v rest h e) refl
