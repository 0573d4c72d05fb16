-- ===== src/Cred/Split.antt =====
-- app/mkcrd: `vSplitUser` reads back what `sGetInputString` writes.
use xtru.Common.{
  ltb, ◌==◌, if◌then◌else◌, Bool-cases, Bytes, codes, length, All, ℕ, ◌≡◌, refl, ◌∙◌, inl, inr,
  Bool, true, false, [], ◌∷◌, ◌++◌, arith,
}
use xtru.Cred.Account.{
  Account, sys_dba, sys_oper, pass_over, ends_user, ends_password, ends_host, split_mode,
  split_host, split_password, split_user, mode_text, get_input_string,
}

-- No byte of a text ends the loop.
abbrev pub Free : (ℕ → Bool) → Bytes → Type 0
Free stop = All (λ c. stop c ≡ false)

-- Nothing is left, or the loop ends there.
abbrev Stops : (ℕ → Bool) → Bytes → Type 0
Stops stop [] = Unit
Stops stop (c ∷ s) = stop c ≡ true

pass_over-append :
    (stop : ℕ → Bool) (s r : Bytes) → Free stop s → Stops stop r → pass_over stop (s ++ r) ≡ (s, r)
pass_over-append stop [] [] h k = refl
pass_over-append stop [] (c ∷ r) h k = rw k refl
pass_over-append stop (c ∷ s) r h k = rw (h.0, pass_over-append stop s r h.1 k) refl

-- The host with its sign, if there is one.
abbrev host_text : Bytes → Bytes
host_text host = if ltb 0 (length host) then codes "@" ++ host else []

-- The mode that is read: that of the text, or the one from before.
abbrev pub read_mode : ℕ → ℕ → ℕ
read_mode mode before =
    if mode == sys_dba then sys_dba else if mode == sys_oper then sys_oper else before

split_mode-mode_text :
    (mode : ℕ) (b : Account)
    → split_mode (mode_text mode) b ≡ record b { mode = read_mode mode b.mode }
unfolding split_mode
split_mode-mode_text mode b = elim (Bool-cases (mode == sys_dba)) [
  | inl e ↦ rw e refl
  | inr e ↦ elim (Bool-cases (mode == sys_oper)) [ inl f ↦ rw (e, f) refl | inr f ↦ rw (e, f) refl ]
]

-- What stands behind a part begins with a byte that ends the part.
mode_text-Stops : (stop : ℕ → Bool) (mode : ℕ) → stop b' ' ≡ true → Stops stop (mode_text mode)
mode_text-Stops stop mode h = elim (Bool-cases (mode == sys_dba)) [
  | inl e ↦ rw e h
  | inr e ↦ elim (Bool-cases (mode == sys_oper)) [ inl f ↦ rw (e, f) h | inr f ↦ rw (e, f) tt ]
]

split_host-mode_text :
    (mode : ℕ) (b : Account) → split_host (mode_text mode) b ≡ split_mode (mode_text mode) b
unfolding split_host
split_host-mode_text mode b = elim (Bool-cases (mode == sys_dba)) [
  | inl e ↦ rw e refl
  | inr e ↦ elim (Bool-cases (mode == sys_oper)) [ inl f ↦ rw (e, f) refl | inr f ↦ rw (e, f) refl ]
]

-- The host that is read: the one from before if the text has none.
abbrev pub read_host : Bytes → Bytes → Bytes
read_host [] before = before
read_host (c ∷ host) before = c ∷ host

split_host_sign :
    (s : Bytes) (b : Account)
    → split_host (b'@' ∷ s) b
      ≡ split_mode (pass_over ends_host s).1 (record b { host = (pass_over ends_host s).0 })
unfolding split_host
split_host_sign s b = refl

host_text-cons : (c : ℕ) (host : Bytes) → host_text (c ∷ host) ≡ b'@' ∷ c ∷ host
host_text-cons c host = ground arith

split_host-host_text :
    (host : Bytes) (mode : ℕ) (b : Account)
    → Free ends_host host
    → split_host (host_text host ++ mode_text mode) b
      ≡ record b { host = read_host host b.host; mode = read_mode mode b.mode }
split_host-host_text [] mode b h = split_host-mode_text mode b ∙ split_mode-mode_text mode b
split_host-host_text (c ∷ host) mode b h =
    rw
      (
        host_text-cons c host,
        split_host_sign (c ∷ host ++ mode_text mode) b,
        pass_over-append ends_host (c ∷ host) (mode_text mode) h
            (mode_text-Stops ends_host mode refl),
      )
      (split_mode-mode_text mode (record b { host = c ∷ host }))

host_text-Stops : (host : Bytes) (mode : ℕ) → Stops ends_password (host_text host ++ mode_text mode)
host_text-Stops [] mode = mode_text-Stops ends_password mode refl
host_text-Stops (c ∷ host) mode = rw (host_text-cons c host) refl

split_password_sign :
    (s : Bytes) (b : Account)
    → split_password (b'/' ∷ s) b
      ≡ split_host
          (pass_over ends_password s).1
          (record b { password = (pass_over ends_password s).0 })
unfolding split_password
split_password_sign s b = refl

split_user_parts :
    (s : Bytes) (b : Account)
    → split_user s b
      ≡ split_password (pass_over ends_user s).1 (record b { user = (pass_over ends_user s).0 })
unfolding split_user
split_user_parts s b = refl

-- If the user has no `/`, `@` or blank, the password no `@` or blank and the host no blank, then
-- `vSplitUser` of the connect string that `sGetInputString` makes gives back the user, the password,
-- the host and the mode. Where the string names no host, or no mode but the default one, the output
-- parameter and `iMode_` keep what they held before.
pub split_user-get_input_string :
    (a b : Account)
    → Free ends_user a.user
    → Free ends_password a.password
    → Free ends_host a.host
    → split_user (get_input_string a) b ≡ record {
      user = a.user;
      password = a.password;
      host = read_host a.host b.host;
      mode = read_mode a.mode b.mode;
    }
unfolding get_input_string
split_user-get_input_string a b hu hp hh =
    rw
      (
        split_user_parts (a.user ++ b'/' ∷ (a.password ++ (host_text a.host ++ mode_text a.mode)))
            b,
        pass_over-append ends_user a.user
            (b'/' ∷ (a.password ++ (host_text a.host ++ mode_text a.mode))) hu refl,
        split_password_sign (a.password ++ (host_text a.host ++ mode_text a.mode))
            (record b { user = a.user }),
        pass_over-append ends_password a.password (host_text a.host ++ mode_text a.mode) hp
            (host_text-Stops a.host a.mode),
      )
      (split_host-host_text a.host a.mode (record b { user = a.user; password = a.password }) hh)
