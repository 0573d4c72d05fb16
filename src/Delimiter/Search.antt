-- ===== src/Delimiter/Search.antt =====
-- A search for the first occurrence of a pattern of fixed width: an instance of what
-- lib/cDelimiter.cpp relies on of `boost::regex_search`.
use xtru.Common.{
  ◌==◌, if◌then◌else◌, Bool-cases, Option-cases, Bytes, length, take, drop, take-append-drop,
  take-append_length, ℕ, ◌≤◌, ◌<◌, ◌≡◌, refl, sym, ap, ◌∙◌, inl, inr, Bool, true, false, ◌&&◌, ◌||◌,
  Option, none, some, [], ◌∷◌, ◌++◌, arith,
}
use mathlib.Core.Option
use xtru.Delimiter.Literal.{Searcher, Finds, IsEscape, IsHexByte, is_xdigit}

module _ (test : Bytes → Bool) (width : ℕ) where
  unfoldable pub search_for : Searcher
  search_for [] = none
  search_for (c ∷ s) =
      if test (take width (c ∷ s))
      then some ([], take width (c ∷ s), drop width (c ∷ s))
      else Option.map (λ r. (c ∷ r.0, r.1, r.2)) (search_for s)

  search_for-nil : search_for [] ≡ none
  unfolding search_for
  search_for-nil = refl

  search_for-here :
      (c : ℕ) (s : Bytes)
      → test (take width (c ∷ s)) ≡ true
      → search_for (c ∷ s) ≡ some ([], take width (c ∷ s), drop width (c ∷ s))
  unfolding search_for
  search_for-here c s h = rw h refl

  search_for-later :
      (c : ℕ) (s : Bytes)
      → test (take width (c ∷ s)) ≡ false
      → search_for (c ∷ s) ≡ Option.map (λ r. (c ∷ r.0, r.1, r.2)) (search_for s)
  unfolding search_for
  search_for-later c s h = rw h refl

triple_eq :
    (a b c a' b' c' : Bytes)
    → Path (Option (Bytes × Bytes × Bytes)) (some (a, b, c)) (some (a', b', c'))
    → (a ≡ a') × (b ≡ b') × (c ≡ c')
triple_eq a b c a' b' c' h = (cc, cc, cc)

module _ (test : Bytes → Bool) (width : ℕ) (P : Bytes → Type 0)
    (sound : (m : Bytes) → test m ≡ true → P m) (complete : (m : Bytes) → P m → test m ≡ true)
    (P-width : (m : Bytes) → P m → length m ≡ width) (width_pos : 0 < width) where
  take_token : (m r : Bytes) → P m → take width (m ++ r) ≡ m
  take_token m r p = ap (λ n. take n (m ++ r)) (sym (P-width m p)) ∙ take-append_length m r

  test_token : (m r s : Bytes) → P m → s ≡ m ++ r → test (take width s) ≡ true
  test_token m r s p e = ap (λ q. test (take width q)) e ∙ ap test (take_token m r p) ∙ complete m p

  search_for-hit :
      (s pre m post : Bytes)
      → search_for test width s ≡ some (pre, m, post)
      → (s ≡ pre ++ (m ++ post)) × P m
  search_for-hit [] pre m post h = absurd (ground (arith, h, search_for-nil test width))
  search_for-hit (c ∷ s) pre m post h = elim (Bool-cases (test (take width (c ∷ s)))) [
    | inl found ↦
        let (e0, e1, e2) =
          triple_eq [] (take width (c ∷ s)) (drop width (c ∷ s)) pre m post
            (sym (search_for-here test width c s found) ∙ h) in
        rw (← e0, ← e1, ← e2)
          (sym (take-append-drop width (c ∷ s)), sound (take width (c ∷ s)) found)
    | inr missed ↦ elim (Option-cases (search_for test width s)) [
      | inl e ↦ absurd (ground (arith, h, e, search_for-later test width c s missed))
      | inr (r, e) ↦
          let (e0, e1, e2) =
            triple_eq (c ∷ r.0) r.1 r.2 pre m post
              (sym (search_for-later test width c s missed ∙ ap (Option.map _) e) ∙ h) in
          let (whole, p) = search_for-hit s r.0 r.1 r.2 e in
          rw (← e0, ← e1, ← e2) (ap (◌∷◌ c) whole, p)
    ]
  ]

  search_for-leftmost :
      (s pre m post : Bytes)
      → search_for test width s ≡ some (pre, m, post)
      → (l m' r : Bytes) → s ≡ l ++ (m' ++ r)
      → P m'
      → length pre ≤ length l
  search_for-leftmost [] pre m post h l m' r e p =
      absurd (ground (arith, h, search_for-nil test width))
  search_for-leftmost (c ∷ s) pre m post h [] m' r e p =
      let here = search_for-here test width c s (test_token m' r (c ∷ s) p e) in
      let (e0, _, _) =
        triple_eq [] (take width (c ∷ s)) (drop width (c ∷ s)) pre m post (sym here ∙ h) in
      rw (← e0) (omega arith)
  search_for-leftmost (c ∷ s) pre m post h (x ∷ l) m' r e p =
      elim (Bool-cases (test (take width (c ∷ s)))) [
        | inl found ↦
            let (e0, _, _) =
              triple_eq [] (take width (c ∷ s)) (drop width (c ∷ s)) pre m post
                (sym (search_for-here test width c s found) ∙ h) in
            rw (← e0) (omega arith)
        | inr missed ↦ elim (Option-cases (search_for test width s)) [
          | inl none_left ↦
              absurd (ground (arith, h, none_left, search_for-later test width c s missed))
          | inr (q, eq) ↦
              let (e0, _, _) =
                triple_eq (c ∷ q.0) q.1 q.2 pre m post
                  (sym (search_for-later test width c s missed ∙ ap (Option.map _) eq) ∙ h) in
              let le = search_for-leftmost s q.0 q.1 q.2 eq l m' r (cc) p in
              rw (← e0) (omega (arith, le))
        ]
      ]

  no_token : (l m r : Bytes) → [] ≡ l ++ (m ++ r) → ¬ P m
  no_token [] [] r e p = absurd (omega (arith, P-width [] p))
  no_token [] (x ∷ m) r e p = absurd (ground (arith, e))
  no_token (x ∷ l) m r e p = absurd (ground (arith, e))

  search_for-miss :
      (s : Bytes) → search_for test width s ≡ none → (l m r : Bytes) → s ≡ l ++ (m ++ r) → ¬ P m
  search_for-miss [] h l m r e p = no_token l m r e p
  search_for-miss (c ∷ s) h [] m r e p =
      absurd (ground (arith, h, search_for-here test width c s (test_token m r (c ∷ s) p e)))
  search_for-miss (c ∷ s) h (x ∷ l) m r e p = elim (Bool-cases (test (take width (c ∷ s)))) [
    | inl found ↦ absurd (ground (arith, h, search_for-here test width c s found))
    | inr missed ↦ elim (Option-cases (search_for test width s)) [
      | inl none_left ↦ search_for-miss s none_left l m r (cc) p
      | inr (q, eq) ↦ absurd (ground (arith, h, eq, search_for-later test width c s missed))
    ]
  ]

  -- The search finds the first occurrence of the pattern, and fails only where there is none.
  pub search_for-Finds : Finds P (search_for test width)
  search_for-Finds = record {
    hit = search_for-hit;
    leftmost = search_for-leftmost;
    miss = search_for-miss;
  }

abbrev is_escape_char : ℕ → Bool
is_escape_char c = (c == b'r') || ((c == b'n') || ((c == b't') || (c == b'0')))

abbrev pub is_escape : Bytes → Bool
is_escape [] = false
is_escape (a ∷ []) = false
is_escape (a ∷ c ∷ []) = (a == b'\\') && is_escape_char c
is_escape (a ∷ c ∷ d ∷ s) = false

abbrev pub is_hex_byte : Bytes → Bool
is_hex_byte [] = false
is_hex_byte (z ∷ []) = false
is_hex_byte (z ∷ x ∷ []) = false
is_hex_byte (z ∷ x ∷ a ∷ []) = false
is_hex_byte (z ∷ x ∷ a ∷ b ∷ []) = (z == b'0') && ((x == b'x') && (is_xdigit a && is_xdigit b))
is_hex_byte (z ∷ x ∷ a ∷ b ∷ c ∷ s) = false

is_escape_sound : (m : Bytes) → is_escape m ≡ true → IsEscape m
is_escape_sound [] h = absurd (ground arith)
is_escape_sound (a ∷ []) h = absurd (ground arith)
is_escape_sound (a ∷ c ∷ []) h =
    let e : a ≡ b'\\' = ground arith in (c, ap (λ x. x ∷ c ∷ []) e, ground arith)
is_escape_sound (a ∷ c ∷ d ∷ s) h = absurd (ground arith)

is_escape_complete : (m : Bytes) → IsEscape m → is_escape m ≡ true
is_escape_complete m (c, e, h) = ap is_escape e ∙ h

is_hex_byte_sound : (m : Bytes) → is_hex_byte m ≡ true → IsHexByte m
is_hex_byte_sound [] h = absurd (ground arith)
is_hex_byte_sound (z ∷ []) h = absurd (ground arith)
is_hex_byte_sound (z ∷ x ∷ []) h = absurd (ground arith)
is_hex_byte_sound (z ∷ x ∷ a ∷ []) h = absurd (ground arith)
is_hex_byte_sound (z ∷ x ∷ a ∷ b ∷ []) h =
    let ez : z ≡ b'0' = ground arith in
    let ex : x ≡ b'x' = ground arith in (a, b, cc (ez, ex), ground arith, ground arith)
is_hex_byte_sound (z ∷ x ∷ a ∷ b ∷ c ∷ s) h = absurd (ground arith)

is_hex_byte_complete : (m : Bytes) → IsHexByte m → is_hex_byte m ≡ true
is_hex_byte_complete m (a, b, e, ha, hb) = ap is_hex_byte e ∙ rw (ha, hb) refl

abbrev pub find_escape : Searcher
find_escape = search_for is_escape 2

abbrev pub find_hex_byte : Searcher
find_hex_byte = search_for is_hex_byte 4

pub find_escape-Finds : Finds IsEscape find_escape
find_escape-Finds =
    search_for-Finds is_escape 2 IsEscape is_escape_sound is_escape_complete
      (λ m p. let (c, e, _) = p in ap length e) (omega arith)

pub find_hex_byte-Finds : Finds IsHexByte find_hex_byte
find_hex_byte-Finds =
    search_for-Finds is_hex_byte 4 IsHexByte is_hex_byte_sound is_hex_byte_complete
      (λ m p. let (a, b, e, _, _) = p in ap length e) (omega arith)
