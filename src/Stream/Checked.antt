-- ===== src/Stream/Checked.antt =====
-- lib/nsStreamLocator: what `vInitialize` tests is enough for `oOpen`.
use xtru.Common.{
  ltb, Bytes, codes, length, Error, Result, guard, ◌>>◌, runtime_error, err, ok, is_empty, ℕ, ◌≡◌,
  refl, sym, ap, ◌≢◌, Bool, true, false, not, Option, none, some, [], ◌∷◌, arith,
}
use xtru.Stream.Macros.{
  ExtType, ext_data, ext_ctrl, ext_clob, ext_blob, num_ext_type, Exts, Settings, Match, Engine,
  Platform, Generator, scheme_of,
}
use xtru.Stream.Initialize.{
  is_some, all_known, check_parts, check_locator, after, initialize, check_output, env_values,
  check_exts, has_been_initialized,
}
use xtru.Stream.Open.{
  default_stream_locator, chosen, locator_for, get_stream_locator, StreamLocator, open_with,
  file_name, open_stream, parts_of,
}
use xtru.Stream.Total.{Spells, Short, is_some-value, file_name_total}

abbrev pub default_location : Bytes
default_location = codes "{O}/{C}.{X}"

abbrev pub simple_match : ℕ → Bytes → Match
simple_match n v = record { position = n; size = 3; var = v; opt = [] }

-- What the expressions find in the default locator.
abbrev pub ReadsDefault : Engine → Type 0
ReadsDefault e =
    (e.match_location default_stream_locator ≡ some (codes "file", default_location))
    × (e.find_macros default_location
        ≡ simple_match 0 (codes "O") ∷ simple_match 4 (codes "C") ∷ simple_match 8 (codes "X") ∷ [])

-- A locator that `vInitialize` lets pass.
abbrev Sound : Engine → Bytes → Type 0
Sound e locator = check_parts e (e.match_location locator) ≡ ok tt

is_ok : {A : Type 0} → Result A → Bool
is_ok (err failing) = false
is_ok (ok a) = true

after-ok :
    {A : Type 0} (s s' : Settings) (r : Result A) (next : A → Settings × Result (Unit {0}))
    → after s r next ≡ (s', ok tt)
    → (a : A) × ((r ≡ ok a) × (next a ≡ (s', ok tt)))
after-ok s s' (err failing) next h = ground (arith, ap (λ q. is_ok q.1) h)
after-ok s s' (ok a) next h = (a, (refl, h))

guard-ok :
    (b : Bool) (failing : Error) (rest : Result (Unit {0}))
    → (guard b failing >> rest) ≡ ok tt
    → (b ≡ true) × (rest ≡ ok tt)
guard-ok b failing rest h = ground arith

initialize-checked :
    (e : Engine) (w : Platform) (locator : Bytes) (stdout : ℕ) (output : Bytes) (exts : Exts)
    (suppress : Bool) (s s' : Settings)
    → initialize e w locator stdout output exts suppress s ≡ (s', ok tt)
    → (check_locator e locator ≡ ok tt) × (s'.specified ≡ locator)
unfolding initialize
initialize-checked e w locator stdout output exts suppress s s' h =
    let a = after-ok s s' (check_locator e locator) _ h in
    let b = after-ok _ s' (check_output w output) _ a.1.1 in
    let c = after-ok _ s' (env_values e w) _ b.1.1 in
    let d = after-ok _ s' (check_exts e exts) _ c.1.1 in
    (a.1.0, sym (ap (λ q. q.0.specified) d.1.1))

default-Sound : (e : Engine) → ReadsDefault e → Sound e default_stream_locator
unfolding all_known
default-Sound e h = rw (h.0, h.1) refl

parts_of_lem :
    (e : Engine) (m : Option (Bytes × Bytes))
    → check_parts e m ≡ ok tt
    → (is_some (scheme_of (parts_of m).0) ≡ true)
      × (all_known (e.find_macros (parts_of m).1) ≡ true)
parts_of_lem e none h = ground arith
parts_of_lem e (some (scheme, location)) h =
    let a = guard-ok (is_some (scheme_of scheme)) runtime_error _ h in
    let b = guard-ok (not (is_empty location)) runtime_error _ a.1 in (a.0, ground arith)

-- The memory of the destroyed text still holds it when the groups are read, which nothing warrants.
abbrev pub HoldsText : (Bytes × Bytes → Bytes × Bytes) → Type 0
HoldsText read_back = (m : Bytes × Bytes) → read_back m ≡ m

-- The call of `oOpen` constructs a stream for a file of some name.
abbrev pub Opens :
    Engine
    → Platform
    → Settings
    → (Bytes × Bytes → Bytes × Bytes)
    → StreamLocator
    → ExtType
    → Bytes
    → Type 0
Opens e w s read_back o x dir =
    (name : Bytes) × ((g : Generator) × (open_stream e w s read_back o x dir
        ≡ ok (record o { last_opened_filename = name }, g)))

module _ (e : Engine) (w : Platform) (s : Settings) (o : StreamLocator) (x : ExtType)
    (dir : Bytes) where
  open_with-opens :
      (mg : Option Generator) (g : Generator) (location name : Bytes)
      → mg ≡ some g
      → file_name e w s o.init_params x dir location ≡ ok name
      → open_with e w s mg location o x dir ≡ ok (record o { last_opened_filename = name }, g)
  open_with-opens mg g location name known named = rw (known, named) refl

  open_stream-Sound :
      (read_back : Bytes × Bytes → Bytes × Bytes) (locator : Bytes)
      → HoldsText read_back
      → Spells e
      → x ≢ num_ext_type
      → Short s.env_map
      → has_been_initialized s ≡ true
      → get_stream_locator s x ≡ ok locator
      → Sound e locator
      → Opens e w s read_back o x dir
  unfolding open_stream
  open_stream-Sound read_back locator holds spells h short begun got sound =
      let m = e.match_location locator in
      let a = parts_of_lem e m sound in
      let g = is_some-value (scheme_of (parts_of m).0) a.0 in
      let v = file_name_total e w s o.init_params x dir (parts_of m).1 spells h short a.1 in
      (
        v.0,
        (
          g.0,
          rw (begun, got, holds (parts_of m))
              (open_with-opens (scheme_of (parts_of m).0) g.0 (parts_of m).1 v.0 g.1 v.1),
        ),
      )

chosen-Sound :
    (e : Engine) (s : Settings) (bit : Bool)
    → ReadsDefault e
    → Sound e s.specified
    → Sound e (chosen s bit)
chosen-Sound e s true reads sound = sound
chosen-Sound e s false reads sound = default-Sound e reads

locator_for-Sound :
    (e : Engine) (s : Settings) (x : ExtType)
    → x ≢ num_ext_type
    → ReadsDefault e
    → Sound e s.specified
    → (locator : Bytes) × ((locator_for s x ≡ ok locator) × Sound e locator)
locator_for-Sound e s ext_data h reads sound = (_, (refl, chosen-Sound e s _ reads sound))
locator_for-Sound e s ext_ctrl h reads sound = (_, (refl, chosen-Sound e s _ reads sound))
locator_for-Sound e s ext_clob h reads sound = (_, (refl, chosen-Sound e s _ reads sound))
locator_for-Sound e s ext_blob h reads sound = (_, (refl, chosen-Sound e s _ reads sound))
locator_for-Sound e s num_ext_type h reads sound = absurd (h refl)

not_empty-ltb : (s : Bytes) → not (is_empty s) ≡ true → ltb 0 (length s) ≡ true
not_empty-ltb [] h = ground arith
not_empty-ltb (c ∷ s) h = ground arith

-- After a call of `vInitialize` that returns, whatever the variables were before, each call of `oOpen` for a
-- kind of file chooses a generator and names the file, when the values in the environment are shorter
-- than the limit of the macro `E`, and provided that the groups of the match still read as the text
-- of the locator, which is destroyed before they are read, so that the language warrants nothing.
pub initialize-Opens :
    (e : Engine) (w : Platform) (locator : Bytes) (stdout : ℕ) (output : Bytes) (exts : Exts)
    (suppress : Bool) (s s' : Settings) (read_back : Bytes × Bytes → Bytes × Bytes)
    (o : StreamLocator) (x : ExtType) (dir : Bytes)
    → HoldsText read_back
    → Spells e
    → ReadsDefault e
    → initialize e w locator stdout output exts suppress s ≡ (s', ok tt)
    → Short s'.env_map
    → x ≢ num_ext_type
    → Opens e w s' read_back o x dir
unfolding check_locator has_been_initialized get_stream_locator
initialize-Opens e w locator stdout output exts suppress s s' read_back o x dir back spells reads
      done short h =
    let checked = initialize-checked e w locator stdout output exts suppress s s' done in
    let parts = guard-ok (not (is_empty locator)) runtime_error _ checked.0 in
    let begun : has_been_initialized s' ≡ true = rw checked.1 (not_empty-ltb locator parts.0) in
    let sound : Sound e s'.specified = rw checked.1 parts.1 in
    let (found, (chose, holds)) = locator_for-Sound e s' x h reads sound in
    open_stream-Sound e w s' o x dir read_back found back spells h short begun
      (rw (begun, chose) refl) holds
