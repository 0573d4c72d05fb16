-- ===== src/Text/Wild.antt =====
-- lib/nsPsCommon.cpp: `wild_strmatch`, the wild-card test of names.
use xtru.Common.{
  ◌==◌, if◌then◌else◌, ==_iff, Bool-cases, Bytes, ℕ, ◌≡◌, refl, ap, ◌≢◌, ◌↔◌, ◌⊎◌, inl, inr, Bool,
  true, false, ◌&&◌, ◌||◌, [], ◌∷◌, ◌++◌, arith,
}

-- A text that ends in NUL is the list of the bytes before it, so `'\0' == *str` is emptiness.
unfoldable pub wild_strmatch : Bytes → Bytes → Bool
wild_strmatch [] [] = true
wild_strmatch [] (s ∷ str) = false
wild_strmatch (p ∷ ptn) [] = if p == b'*' then wild_strmatch ptn [] else false
wild_strmatch (p ∷ ptn) (s ∷ str) =
    let skip = wild_strmatch ptn (s ∷ str) in
    let stay = wild_strmatch (p ∷ ptn) str in
    let both = wild_strmatch ptn str in
    if p == b'*' then skip || stay else if p == b'?' then both else (p == s) && both

-- What a pattern means: `*` any run of bytes, `?` any one byte, every other byte itself.
pub data Matches : Bytes → Bytes → Type 0 where
  done : Matches [] []
  run :
      {p : ℕ} {ptn str rest : Bytes} (skipped : Bytes)
      → p ≡ b'*'
      → str ≡ skipped ++ rest
      → Matches ptn rest
      → Matches (p ∷ ptn) str
  any_byte : {p s : ℕ} {ptn str : Bytes} → p ≡ b'?' → Matches ptn str → Matches (p ∷ ptn) (s ∷ str)
  byte :
      {p s : ℕ} {ptn str : Bytes}
      → p ≢ b'*'
      → p ≢ b'?'
      → p ≡ s
      → Matches ptn str
      → Matches (p ∷ ptn) (s ∷ str)

-- A run can take one byte more.
run_more :
    {p : ℕ} {ptn str : Bytes} (s : ℕ)
    → p ≡ b'*'
    → Matches (p ∷ ptn) str
    → Matches (p ∷ ptn) (s ∷ str)
run_more s e (run skipped q eq m) = run (s ∷ skipped) q (ap (◌∷◌ s) eq) m
run_more s e (any_byte q m) = absurd (omega arith)
run_more s e (byte q r eq m) = absurd (q e)

or_true : (a b : Bool) → (a || b) ≡ true → (a ≡ true) ⊎ (b ≡ true)
or_true a b h = ground arith

wild_strmatch_sound : (ptn str : Bytes) → wild_strmatch ptn str ≡ true → Matches ptn str
unfolding wild_strmatch
wild_strmatch_sound [] [] h = done
wild_strmatch_sound [] (s ∷ str) h = ground arith
wild_strmatch_sound (p ∷ ptn) [] h =
    run [] (ground arith) refl (wild_strmatch_sound ptn [] (ground arith))
wild_strmatch_sound (p ∷ ptn) (s ∷ str) h = elim (Bool-cases (p == b'*')) [
  | inl star ↦ elim (or_true _ _ (ground arith)) [
    | inl skip ↦ run [] ((==_iff p b'*').0 star) refl (wild_strmatch_sound ptn (s ∷ str) skip)
    | inr stay ↦ run_more s ((==_iff p b'*').0 star) (wild_strmatch_sound (p ∷ ptn) str stay)
  ]
  | inr plain ↦ elim (Bool-cases (p == b'?')) [
    | inl any ↦ any_byte ((==_iff p b'?').0 any) (wild_strmatch_sound ptn str (ground arith))
    | inr exact ↦
        byte (ground arith) (ground arith) (ground arith)
          (wild_strmatch_sound ptn str (ground arith))
  ]
]

wild_strmatch_run :
    (p : ℕ) (ptn skipped rest : Bytes)
    → p ≡ b'*'
    → wild_strmatch ptn rest ≡ true
    → wild_strmatch (p ∷ ptn) (skipped ++ rest) ≡ true
unfolding wild_strmatch
wild_strmatch_run p ptn [] [] e h = ground arith
wild_strmatch_run p ptn [] (s ∷ rest) e h = ground arith
wild_strmatch_run p ptn (s ∷ skipped) rest e h =
    ground (arith, wild_strmatch_run p ptn skipped rest e h)

wild_strmatch_any :
    (p s : ℕ) (ptn str : Bytes)
    → p ≡ b'?'
    → wild_strmatch ptn str ≡ true
    → wild_strmatch (p ∷ ptn) (s ∷ str) ≡ true
unfolding wild_strmatch
wild_strmatch_any p s ptn str e h = ground arith

wild_strmatch_byte :
    (p s : ℕ) (ptn str : Bytes)
    → p ≢ b'*'
    → p ≢ b'?'
    → p ≡ s
    → wild_strmatch ptn str ≡ true
    → wild_strmatch (p ∷ ptn) (s ∷ str) ≡ true
unfolding wild_strmatch
wild_strmatch_byte p s ptn str star any e h = ground arith

wild_strmatch_complete : {ptn str : Bytes} → Matches ptn str → wild_strmatch ptn str ≡ true
wild_strmatch_complete done = unfold wild_strmatch in refl
wild_strmatch_complete (run {p} {ptn} {str} {rest} skipped e eq m) =
    rw eq (wild_strmatch_run p ptn skipped rest e (wild_strmatch_complete m))
wild_strmatch_complete (any_byte {p} {s} {ptn} {str} e m) =
    wild_strmatch_any p s ptn str e (wild_strmatch_complete m)
wild_strmatch_complete (byte {p} {s} {ptn} {str} star any e m) =
    wild_strmatch_byte p s ptn str star any e (wild_strmatch_complete m)

-- `wild_strmatch` accepts exactly the texts that the pattern stands for: `*` stands for any run of
-- bytes, the empty one included, `?` for any one byte, and every other byte for itself.
pub wild_strmatch_iff : (ptn str : Bytes) → (wild_strmatch ptn str ≡ true) ↔ Matches ptn str
wild_strmatch_iff ptn str = (wild_strmatch_sound ptn str, wild_strmatch_complete)
