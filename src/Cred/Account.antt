-- ===== src/Cred/Account.antt =====
-- app/mkcrd/nsMkcrd.cpp: `vSplitUser`, and app/mkcrd/cInput.cpp: `sGetInputString`.
use xtru.Common.{
  ltb, leb, ◌==◌, if◌then◌else◌, Bytes, codes, same, length, ℕ, ◌-◌, Bool, ◌&&◌, ◌||◌, [], ◌∷◌,
  ◌++◌, map,
}

-- User, password, host and `iMode_`, a number of `tSesMode` or what the memory held.
pub record Account : Type 0 where
  pub user : Bytes
  pub password : Bytes
  pub host : Bytes
  pub mode : ℕ

abbrev pub default_mode : ℕ
default_mode = 0

abbrev pub sys_dba : ℕ
sys_dba = 2

abbrev pub sys_oper : ℕ
sys_oper = 4

-- `toupper` in the C locale.
abbrev pub to_upper : ℕ → ℕ
to_upper c = if leb b'a' c && leb c b'z' then c - 32 else c

-- A loop `while (p != e && ...) ++p`: what it passes over, and what is left.
abbrev pub pass_over : (ℕ → Bool) → Bytes → Bytes × Bytes
pass_over stop [] = ([], [])
pass_over stop (c ∷ s) =
    let rest = pass_over stop s in if stop c then ([], c ∷ s) else (c ∷ rest.0, rest.1)

abbrev pub ends_user : ℕ → Bool
ends_user c = (c == b'/') || ((c == b'@') || (c == b' '))

abbrev pub ends_password : ℕ → Bool
ends_password c = (c == b'@') || (c == b' ')

abbrev pub ends_host : ℕ → Bool
ends_host c = c == b' '

-- The part of `vSplitUser` from `if (*p == ' ')`; `[]` is `p == e`, where the function has returned.
unfoldable pub split_mode : Bytes → Account → Account
split_mode [] a = a
split_mode (c ∷ s) a =
    if c == b' '
    then if same (map to_upper s) (codes "AS SYSDBA")
      then record a { mode = sys_dba }
      else if same (map to_upper s) (codes "AS SYSOPER")
      then record a { mode = sys_oper }
      else a
    else record a { mode = default_mode }

-- The part from `if (*p == '@')`.
unfoldable pub split_host : Bytes → Account → Account
unfolding split_mode
split_host [] a = a
split_host (c ∷ s) a =
    let r = pass_over ends_host s in
    if c == b'@' then split_mode r.1 (record a { host = r.0 }) else split_mode (c ∷ s) a

-- The part from `if (*p == '/')`.
unfoldable pub split_password : Bytes → Account → Account
unfolding split_host
split_password [] a = a
split_password (c ∷ s) a =
    let r = pass_over ends_password s in
    if c == b'/' then split_host r.1 (record a { password = r.0 }) else split_host (c ∷ s) a

-- `vSplitUser`, with the output parameters and `iMode_` as they were before.
unfoldable pub split_user : Bytes → Account → Account
unfolding split_password
split_user s a = let r = pass_over ends_user s in split_password r.1 (record a { user = r.0 })

abbrev pub mode_text : ℕ → Bytes
mode_text mode =
    if mode == sys_dba
    then codes " AS SYSDBA"
    else if mode == sys_oper
    then codes " AS SYSOPER"
    else []

-- `sGetInputString`
unfoldable pub get_input_string : Account → Bytes
get_input_string a =
    a.user
    ++ (codes "/"
        ++ (a.password
            ++ ((if ltb 0 (length a.host) then codes "@" ++ a.host else []) ++ mode_text a.mode)))
