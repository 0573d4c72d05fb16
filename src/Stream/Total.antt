-- ===== src/Stream/Total.antt =====
-- lib/nsStreamLocator/cStreamLocator.cpp: a location whose macros are all known has a name of a file.
use xtru.Common.{
  lt→ltb, Bool-cases, Bytes, same, length, All, ok, ℕ, ◌<◌, ◌≡◌, refl, sym, ◌∙◌, subst, ◌≢◌, inl,
  inr, Bool, true, ◌&&◌, Option, none, some, List, [], ◌∷◌, ◌++◌, arith,
}
use xtru.Stream.Macros.{
  ExtType, ext_data, ext_ctrl, ext_clob, ext_blob, num_ext_type, Exts, InitParams, Settings, Engine,
  Platform, Macro, macro_of, find_key, ext_of, env_value, macro_value,
}
use xtru.Stream.Initialize.{is_some, all_known}
use xtru.Stream.Open.{file_name}
use xtru.Stream.Segments.{Segment, spelled, matches_from, expand, file_name-expand}

-- The matches that an iterator finds in a text begin one behind the other and lie in the text.
abbrev pub Spells : Engine → Type 0
Spells e =
    (location : Bytes)
    → (gs : List Segment) × ((last : Bytes) × ((location ≡ spelled gs last)
          × (e.find_macros location ≡ matches_from 0 gs)))

pub is_some-value : {A : Type 0} (o : Option A) → is_some o ≡ true → (a : A) × (o ≡ some a)
is_some-value none h = ground arith
is_some-value (some a) h = (a, refl)

-- The values that are found in the environment are short.
abbrev pub Short : List (Bytes × Bytes) → Type 0
Short = All (λ kv. length kv.1 < 8192)

env_value-find_key :
    (env : List (Bytes × Bytes)) (key : Bytes)
    → Short env
    → (v : Bytes) × (env_value (find_key env key) ≡ ok v)
env_value-find_key [] key h = ([], refl)
env_value-find_key (kv ∷ env) key h = elim (Bool-cases (same kv.0 key)) [
  | inl e ↦ (kv.1, rw (e, lt→ltb (length kv.1) 8192 h.0) refl)
  | inr e ↦ rw e (env_value-find_key env key h.1)
]

ext_of-value : (exts : Exts) (x : ExtType) → x ≢ num_ext_type → (v : Bytes) × (ext_of exts x ≡ ok v)
ext_of-value exts ext_data h = (exts.of_data, refl)
ext_of-value exts ext_ctrl h = (exts.of_ctrl, refl)
ext_of-value exts ext_clob h = (exts.of_clob, refl)
ext_of-value exts ext_blob h = (exts.of_blob, refl)
ext_of-value exts num_ext_type h = absurd (h refl)

both_true : (a b : Bool) → (a && b) ≡ true → (a ≡ true) × (b ≡ true)
both_true a b h = ground arith

module _ (e : Engine) (w : Platform) (s : Settings) (p : InitParams) (x : ExtType)
    (dir : Bytes) where
  macro_value_total :
      (m : Macro) (o : Bytes)
      → x ≢ num_ext_type
      → Short s.env_map
      → (v : Bytes) × (macro_value e w s m p o x dir ≡ ok v)
  unfolding macro_value
  macro_value_total Macro.of_ext o h short = ext_of-value s.exts x h
  macro_value_total Macro.of_env o h short = env_value-find_key s.env_map o short
  macro_value_total m o h short = (_, refl)

  expand_total :
      (gs : List Segment) (n : ℕ) (last : Bytes)
      → x ≢ num_ext_type
      → Short s.env_map
      → all_known (matches_from n gs) ≡ true
      → (v : Bytes) × (expand e w s p x dir gs last ≡ ok v)
  unfolding expand matches_from all_known
  expand_total [] n last h short known = (last, refl)
  expand_total (g ∷ gs) n last h short known =
      let parts = both_true (is_some (macro_of g.var)) _ known in
      let m = is_some-value (macro_of g.var) parts.0 in
      let v = macro_value_total m.0 g.opt h short in
      let r = expand_total gs _ last h short parts.1 in
      (g.before ++ (v.0 ++ r.0), rw (m.1, v.1, r.1) refl)

  pub file_name_total :
      (location : Bytes)
      → Spells e
      → x ≢ num_ext_type
      → Short s.env_map
      → all_known (e.find_macros location) ≡ true
      → (v : Bytes) × (file_name e w s p x dir location ≡ ok v)
  file_name_total location spells h short known =
      let (gs, (last, (same_text, found))) = spells location in
      let v = expand_total gs 0 last h short (subst (λ ms. all_known ms ≡ true) found known) in
      (
        v.0,
        subst (λ t. file_name e w s p x dir t ≡ ok v.0) (sym same_text)
            (file_name-expand e w s p x dir gs last
                (subst (λ t. e.find_macros t ≡ matches_from 0 gs) same_text found)
              ∙ v.1),
      )
