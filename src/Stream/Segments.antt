-- ===== src/Stream/Segments.antt =====
-- lib/nsStreamLocator/cStreamLocator.cpp: a location as literal texts with macros between them, and the
-- name of the file that `oOpen` makes of it.
use xtru.Common.{
  ◌==◌, if◌then◌else◌, lt→ltb, le→leb, Bytes, length, take, length-append, take-append_length,
  drop-append_length, Result, ◌>>=◌, err, ok, is_empty, ℕ, zero, suc, ◌+◌, ◌≤◌, ◌<◌, ◌≡◌, refl, ap,
  ◌∙◌, subst, false, List, [], ◌∷◌, ◌++◌, append-nil, append_assoc, arith,
}
use xtru.Stream.Macros.{ExtType, InitParams, Settings, Match, Engine, Platform, macro_of}
use xtru.Stream.Open.{
  Token, literal_token, variable_token, substr, distance, tokenize, call_action, write_tokens,
  file_name,
}

-- A literal text, which may be empty, and the spelling of the macro behind it with its two groups.
pub record Segment : Type 0 where
  pub before : Bytes
  pub spelling : Bytes
  pub var : Bytes
  pub opt : Bytes

-- The location that the segments and the last literal text spell.
unfoldable pub spelled : List Segment → Bytes → Bytes
spelled [] last = last
spelled (g ∷ gs) last = g.before ++ (g.spelling ++ spelled gs last)

-- The matches in it, behind `n` bytes.
unfoldable pub matches_from : ℕ → List Segment → List Match
matches_from n [] = []
matches_from n (g ∷ gs) =
    record { position = n + length g.before; size = length g.spelling; var = g.var; opt = g.opt }
    ∷ matches_from (n + length g.before + length g.spelling) gs

module _ (e : Engine) (w : Platform) (s : Settings) (p : InitParams) (x : ExtType)
    (dir : Bytes) where
  -- The values of the macros in the places of their spellings.
  unfoldable pub expand : List Segment → Bytes → Result Bytes
  expand [] last = ok last
  expand (g ∷ gs) last = call_action e w s (macro_of g.var) p g.opt x dir >>= λ value.
      expand gs last >>= λ rest. ok (g.before ++ (value ++ rest))

tokens_of : List Segment → Bytes → List Token
tokens_of [] [] = []
tokens_of [] (c ∷ s) = literal_token (c ∷ s) ∷ []
tokens_of (g ∷ gs) last =
    (if is_empty g.before then [] else literal_token g.before ∷ [])
    ++ (variable_token g.var g.opt ∷ tokens_of gs last)

substr_lem :
    (front a rest : Bytes) (count : ℕ)
    → take count (a ++ rest) ≡ a
    → substr (front ++ (a ++ rest)) (length front) count ≡ ok a
substr_lem front a rest count h =
    rw
      (
        drop-append_length front (a ++ rest),
        h,
        le→leb (length front) (length (front ++ (a ++ rest)))
            (omega (arith, length-append front (a ++ rest))),
      )
      refl

take_all : (n : ℕ) (s : Bytes) → length s ≤ n → take n s ≡ s
take_all zero [] h = refl
take_all (suc n) [] h = refl
take_all zero (c ∷ s) h = absurd (omega arith)
take_all (suc n) (c ∷ s) h = ap (◌∷◌ c) (take_all n s (omega arith))

distance_lem : (n k : ℕ) → distance n (n + k) ≡ k
distance_lem n k = ground arith

substr-last :
    (front last : Bytes) → substr (front ++ last) (length front) (length (front ++ last)) ≡ ok last
substr-last front last =
    let enough : length last ≤ length (front ++ last) = omega (arith, length-append front last) in
    let inside : length front ≤ length (front ++ last) = omega (arith, length-append front last) in
    rw
      (
        drop-append_length front last,
        take_all (length (front ++ last)) last enough,
        le→leb (length front) (length (front ++ last)) inside,
      )
      refl

substr-before :
    (front a rest : Bytes)
    → substr
        (front ++ (a ++ rest))
        (length front)
        (distance (length front) (length front + length a))
      ≡ ok a
substr-before front a rest =
    substr_lem front a rest (distance (length front) (length front + length a))
      (rw (distance_lem (length front) (length a)) (take-append_length a rest))

tokenize_end :
    (front last : Bytes) → tokenize (front ++ last) (length front) [] ≡ ok (tokens_of [] last)
unfolding tokenize tokens_of
tokenize_end front [] = rw (length-append front []) (ground arith)
tokenize_end front (c ∷ s) =
    let inside : length front < length (front ++ c ∷ s) =
      omega (arith, length-append front (c ∷ s)) in
    rw (lt→ltb (length front) (length (front ++ c ∷ s)) inside, substr-last front (c ∷ s)) refl

-- One round of the loop, by the tokens of the rest.
tokenize_round :
    (front b : Bytes) (k : ℕ) (v o rest : Bytes) (ms : List Match) (ts : List Token)
    → tokenize (front ++ (b ++ rest)) (length front + length b + k) ms ≡ ok ts
    → tokenize
        (front ++ (b ++ rest))
        (length front)
        (record { position = length front + length b; size = k; var = v; opt = o } ∷ ms)
      ≡ ok ((if is_empty b then [] else literal_token b ∷ []) ++ (variable_token v o ∷ ts))
unfolding tokenize
tokenize_round front [] k v o rest ms ts h = rw h (ground arith)
tokenize_round front (c ∷ b) k v o rest ms ts h =
    let apart : ((length front + length (c ∷ b)) == length front) ≡ false = ground arith in
    rw (h, apart, substr-before front (c ∷ b) rest) refl

-- The position behind a macro, as the length of what stands before it.
behind : (front b sp : Bytes) → length (front ++ (b ++ sp)) ≡ length front + length b + length sp
behind front b sp = omega (arith, length-append front (b ++ sp), length-append b sp)

regroup : (front b sp rest : Bytes) → (front ++ (b ++ sp)) ++ rest ≡ front ++ (b ++ (sp ++ rest))
regroup front b sp rest =
    append_assoc front (b ++ sp) rest ∙ ap (λ t. front ++ t) (append_assoc b sp rest)

tokenize-tokens :
    (front : Bytes) (gs : List Segment) (last : Bytes)
    → tokenize (front ++ spelled gs last) (length front) (matches_from (length front) gs)
      ≡ ok (tokens_of gs last)
unfolding spelled matches_from tokens_of
tokenize-tokens front [] last = tokenize_end front last
tokenize-tokens front (g ∷ gs) last =
    let rest = spelled gs last in
    let k = length front + length g.before + length g.spelling in
    tokenize_round front g.before (length g.spelling) g.var g.opt (g.spelling ++ rest)
      (matches_from k gs) (tokens_of gs last)
      (subst (λ t. tokenize t k (matches_from k gs) ≡ ok (tokens_of gs last))
        (regroup front g.before g.spelling rest)
        (subst
          (λ n.
            tokenize ((front ++ (g.before ++ g.spelling)) ++ rest) n (matches_from n gs)
            ≡ ok (tokens_of gs last))
          (behind front g.before g.spelling)
          (tokenize-tokens (front ++ (g.before ++ g.spelling)) gs last)))

prepend :
    (value rest : Result Bytes) (b : Bytes)
    → ((value >>= λ t. rest >>= λ r. ok (t ++ r)) >>= λ q. ok (b ++ q))
      ≡ (value >>= λ t. rest >>= λ r. ok (b ++ (t ++ r)))
prepend (err failing) rest b = refl
prepend (ok t) (err failing) b = refl
prepend (ok t) (ok r) b = refl

module _ (e : Engine) (w : Platform) (s : Settings) (p : InitParams) (x : ExtType)
    (dir : Bytes) where
  write_round :
      (b v o : Bytes) (ts : List Token)
      → write_tokens e w s p x dir
          ((if is_empty b then [] else literal_token b ∷ []) ++ (variable_token v o ∷ ts))
        ≡ (call_action e w s (macro_of v) p o x dir >>= λ t.
            write_tokens e w s p x dir ts >>= λ r. ok (b ++ (t ++ r)))
  unfolding write_tokens
  write_round [] v o ts = refl
  write_round (c ∷ b) v o ts =
      prepend (call_action e w s (macro_of v) p o x dir) (write_tokens e w s p x dir ts) (c ∷ b)

  write_tokens-expand :
      (gs : List Segment) (last : Bytes)
      → write_tokens e w s p x dir (tokens_of gs last) ≡ expand e w s p x dir gs last
  unfolding write_tokens tokens_of expand
  write_tokens-expand [] [] = refl
  write_tokens-expand [] (c ∷ t) = ap ok (append-nil (c ∷ t))
  write_tokens-expand (g ∷ gs) last =
      rw (write_round g.before g.var g.opt (tokens_of gs last), write_tokens-expand gs last) refl

  -- When the matches in a location that is spelled by segments are the spellings of their macros, the name
  -- of the file is the location with the values of the macros in the places of the spellings, or it is the
  -- first error of an action.
  pub file_name-expand :
      (gs : List Segment) (last : Bytes)
      → e.find_macros (spelled gs last) ≡ matches_from 0 gs
      → file_name e w s p x dir (spelled gs last) ≡ expand e w s p x dir gs last
  unfolding file_name
  file_name-expand gs last h = rw (h, tokenize-tokens [] gs last) (write_tokens-expand gs last)
