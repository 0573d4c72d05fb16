-- ===== src/Cred/Fits.antt =====
-- app/mkcrd/cInput.cpp: what `inputRequest` accepts.
use xtru.Common.{
  ltb, if◌then◌else◌, Bool-cases, Bytes, codes, same, length, is_empty, ℕ, ◌≤◌, ◌<◌, ◌≡◌, refl, sym,
  ap, ◌≢◌, ◌⊎◌, inl, inr, false, ◌||◌, Option, none, some, [], ◌∷◌, arith,
}
use xtru.Cred.Account.{Account, default_mode}
use xtru.Cred.Input.{
  Prompt, got, canceled, waiting, Reads, line, cancel, hang, reads, max_user_name, max_pass_word,
  max_db_alias, asked_mode, refused, input_user, input_password, input_host, request_user,
  request_password, request_host, input_request, ◌>>=◌,
}

>>=-eq-got :
    {A B : Type 0} (m : Prompt A) (f : A → Prompt B) (b : B)
    → (m >>= f) ≡ got b
    → (a : A) × (m ≡ got a) × (f a ≡ got b)
>>=-eq-got (got a) f b h = (a, refl, h)
>>=-eq-got canceled f b h = cc
>>=-eq-got waiting f b h = cc

got_eq : {A : Type 0} {x y : A} → got x ≡ got y → x ≡ y
got_eq h = cc

got_fst : {A B : Type 0} {x y : A × B} → got x ≡ got y → x.0 ≡ y.0
got_fst h = ap (λ r. r.0) (got_eq h)

module _ (stale : Bytes → Bytes) where
  input_user-refused :
      (mode : ℕ) (rs : Reads) (u : Bytes) (rest : Reads)
      → input_user stale mode rs ≡ got (u, rest)
      → refused max_user_name mode u ≡ false
  unfolding input_user
  input_user-refused mode cancel u rest h = cc
  input_user-refused mode hang u rest h = cc
  input_user-refused mode (line str rs) u rest h =
      elim (Bool-cases (refused max_user_name mode (stale str))) [
        | inl e ↦ input_user-refused mode rs u rest (rw e at h)
        | inr e ↦
            let k : got (stale str, rs) ≡ got (u, rest) = rw e at h in
            let f : stale str ≡ u = cc in rw (← f) e
      ]

  -- The password that is to be confirmed, if there is one, was accepted.
  abbrev Accepted : ℕ → Option Bytes → Type 0
  Accepted mode none = Unit
  Accepted mode (some str) = refused max_pass_word mode str ≡ false

  accept :
      (mode : ℕ) (str : Bytes)
      → Accepted mode (if refused max_pass_word mode str then none else some str)
  accept mode str = elim (Bool-cases (refused max_pass_word mode str)) [
    | inl e ↦ rw e tt
    | inr e ↦ rw e e
  ]

  input_password-refused :
      (mode : ℕ) (str1 : Option Bytes) (rs : Reads) (p : Bytes) (rest : Reads)
      → Accepted mode str1
      → input_password stale mode str1 rs ≡ got (p, rest)
      → refused max_pass_word mode p ≡ false
  unfolding input_password
  input_password-refused mode none cancel p rest a h = cc
  input_password-refused mode (some str1) cancel p rest a h = cc
  input_password-refused mode none hang p rest a h = cc
  input_password-refused mode (some str1) hang p rest a h = cc
  input_password-refused mode none (line str rs) p rest a h =
      input_password-refused mode
        (if refused max_pass_word mode (stale str) then none else some (stale str)) rs p rest
        (accept mode (stale str)) h
  input_password-refused mode (some str1) (line str rs) p rest a h =
      elim (Bool-cases (same str1 (stale str))) [
        | inl e ↦
            let k : got (str1, rs) ≡ got (p, rest) = rw e at h in
            let f : str1 ≡ p = cc in rw (← f) a
        | inr e ↦ input_password-refused mode none rs p rest tt (rw e at h)
      ]

  input_host-le :
      (rs : Reads) (h : Bytes) (rest : Reads)
      → input_host stale rs ≡ got (h, rest)
      → length h ≤ max_db_alias
  unfolding input_host
  input_host-le cancel h rest e = cc
  input_host-le hang h rest e = cc
  input_host-le (line str rs) h rest e = elim (Bool-cases (ltb max_db_alias (length (stale str)))) [
    | inl t ↦ input_host-le rs h rest (rw t at e)
    | inr t ↦
        let k : got (stale str, rs) ≡ got (h, rest) = rw t at e in
        let f : stale str ≡ h = cc in rw (← f) (ground (arith, t))
  ]

  request_user_lem :
      (a : Account) (rs : Reads) (b : Account) (rest : Reads)
      → request_user stale a rs ≡ got (b, rest)
      → (u : Bytes) × (b ≡ record a { user = u }) × (refused max_user_name a.mode u ≡ false)
  unfolding request_user
  request_user_lem a rs b rest h =
      elim (Bool-cases (is_empty a.user || ltb max_user_name (length a.user))) [
        | inl e ↦
            let (r, f, g) =
              >>=-eq-got (input_user stale a.mode rs) (λ r. got (record a { user = r.0 }, r.1))
                (b, rest) (rw e at h) in
            (r.0, sym (got_fst g), input_user-refused a.mode rs r.0 r.1 f)
        | inr e ↦
            let k : got (a, rs) ≡ got (b, rest) = rw e at h in
            (a.user, sym (got_fst k), ground (arith, e))
      ]

  request_password_lem :
      (a : Account) (rs : Reads) (b : Account) (rest : Reads)
      → request_password stale a rs ≡ got (b, rest)
      → (p : Bytes) × (b ≡ record a { password = p }) × (refused max_pass_word a.mode p ≡ false)
  unfolding request_password
  request_password_lem a rs b rest h =
      elim (Bool-cases (
        (is_empty a.password || same a.password (codes "*"))
        || ltb max_pass_word (length a.password))) [
          | inl e ↦
              let (r, f, g) =
                >>=-eq-got (input_password stale a.mode none rs)
                  (λ r. got (record a { password = r.0 }, r.1)) (b, rest) (rw e at h) in
              (r.0, sym (got_fst g), input_password-refused a.mode none rs r.0 r.1 tt f)
          | inr e ↦
              let k : got (a, rs) ≡ got (b, rest) = rw e at h in
              (a.password, sym (got_fst k), ground (arith, e))
        ]

  request_host_lem :
      (a : Account) (rs : Reads) (b : Account) (rest : Reads)
      → request_host stale a rs ≡ got (b, rest)
      → (h : Bytes) × (b ≡ record a { host = h }) × (length h ≤ max_db_alias)
  unfolding request_host
  request_host_lem a rs b rest h =
      elim (Bool-cases (is_empty a.host || ltb max_db_alias (length a.host))) [
        | inl e ↦
            let (r, f, g) =
              >>=-eq-got (input_host stale rs) (λ r. got (record a { host = r.0 }, r.1)) (b, rest)
                (rw e at h) in
            (r.0, sym (got_fst g), input_host-le rs r.0 r.1 f)
        | inr e ↦
            let k : got (a, rs) ≡ got (b, rest) = rw e at h in
            (a.host, sym (got_fst k), ground (arith, e))
      ]

-- An account that the program goes on with.
pub record Fits (a : Account) : Type 0 where
  pub user_fits : length a.user ≤ max_user_name
  pub password_fits : length a.password ≤ max_pass_word
  pub host_fits : length a.host ≤ max_db_alias
  pub named : (a.mode ≢ default_mode) ⊎ ((0 < length a.user) × (0 < length a.password))

not_refused :
    (max mode : ℕ) (str : Bytes)
    → refused max mode str ≡ false
    → (length str ≤ max) × ((mode ≢ default_mode) ⊎ (0 < length str))
not_refused max mode [] h = (omega arith, inl (λ e. ground (arith, e, h)))
not_refused max mode (c ∷ str) h = (ground (arith, h), inr (omega arith))

both_named :
    (mode : ℕ) (u p : Bytes)
    → (mode ≢ default_mode) ⊎ (0 < length u)
    → (mode ≢ default_mode) ⊎ (0 < length p)
    → (mode ≢ default_mode) ⊎ ((0 < length u) × (0 < length p))
both_named mode u p (inl h) k = inl h
both_named mode u p (inr h) (inl k) = inl k
both_named mode u p (inr h) (inr k) = inr (h, k)

-- An account to which the user, the password and the host were given one after the other.
parts_Fits :
    (a u p o b : Account) (user password host : Bytes)
    → u ≡ record a { user = user }
    → p ≡ record u { password = password }
    → o ≡ record p { host = host }
    → o ≡ b
    → refused max_user_name a.mode user ≡ false
    → refused max_pass_word u.mode password ≡ false
    → length host ≤ max_db_alias
    → Fits b
parts_Fits a u p o b user password host f1 f2 f3 g r1 r2 r3 =
    let same_mode : u.mode ≡ a.mode = ap (λ (x : Account). x.mode) f1 in
    let accepted : refused max_pass_word a.mode password ≡ false = rw (← same_mode) r2 in
    let (l1, n1) = not_refused max_user_name a.mode user r1 in
    let (l2, n2) = not_refused max_pass_word a.mode password accepted in
    rw (← g, f3, f2, f1)
      (record {
        user_fits = l1;
        password_fits = l2;
        host_fits = r3;
        named = both_named a.mode user password n1 n2;
      })

-- Whatever the dangling pointer shows: if `inputRequest` returns, then the user, the password and the
-- host have at most 29, 29 and 127 bytes, and unless the mode is one of an administrator the user and
-- the password are not empty.
pub input_request-Fits :
    (stale : Bytes → Bytes) (a : Account) (input : Bytes) (b : Account)
    → input_request stale a input ≡ got b
    → Fits b
unfolding input_request
input_request-Fits stale a input b h =
    let at_end = λ (o : Account × Reads). got o.0 in
    let at_host = λ (p : Account × Reads). request_host stale p.0 p.1 >>= at_end in
    let at_password = λ (u : Account × Reads). request_password stale u.0 u.1 >>= at_host in
    let at_user = λ (m : ℕ × Bytes).
      request_user stale (record a { mode = m.0 }) (reads [] m.1) >>= at_password in
    let (m, e, h1) = >>=-eq-got (asked_mode a input) at_user b h in
    let (u, e1, h2) =
      >>=-eq-got (request_user stale (record a { mode = m.0 }) (reads [] m.1)) at_password b h1 in
    let (p, e2, h3) = >>=-eq-got (request_password stale u.0 u.1) at_host b h2 in
    let (o, e3, h4) = >>=-eq-got (request_host stale p.0 p.1) at_end b h3 in
    let (user, f1, r1) =
      request_user_lem stale (record a { mode = m.0 }) (reads [] m.1) u.0 u.1 e1 in
    let (password, f2, r2) = request_password_lem stale u.0 u.1 p.0 p.1 e2 in
    let (host, f3, r3) = request_host_lem stale p.0 p.1 o.0 o.1 e3 in
    parts_Fits (record a { mode = m.0 }) u.0 p.0 o.0 b user password host f1 f2 f3 (got_eq h4) r1 r2
      r3
