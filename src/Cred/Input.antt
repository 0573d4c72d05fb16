-- ===== src/Cred/Input.antt =====
-- app/mkcrd/cInput.cpp: the input at the terminal. `pGetInputStr` returns a pointer into a text that is
-- destroyed; `stale` is what its callers find there, and may be anything. At the end of the input
-- `getchar` returns `EOF` for ever, and the loops do not end. CTRL+C ends the program: the handler of
-- app/mkcrd/mkcrd.cpp calls `exit`. What is shown on the terminal is left out.
use xtru.Common.{
  ltb, leb, ◌==◌, if◌then◌else◌, Bytes, codes, same, length, is_empty, ℕ, Bool, ◌&&◌, ◌||◌, Option,
  none, some, [], ◌∷◌, ◌++◌,
}
use xtru.Cred.Account.{Account, default_mode, sys_dba, sys_oper}

pub data Prompt (Value : Type 0) : Type 0 where
  got : Value → Prompt Value
  canceled waiting : Prompt Value

-- What the successive calls of `pGetInputStr` read: a line each, or CTRL+C, or no end of the line.
pub data Reads : Type 0 where
  line : Bytes → Reads → Reads
  cancel hang : Reads

unfoldable pub reads : Bytes → Bytes → Reads
reads str [] = hang
reads str (c ∷ input) =
    let more = reads (str ++ c ∷ []) input in
    let next = line str (reads [] input) in
    if (c == 0x0a) || (c == 0x0d) then next else if c == 0x03 then cancel else more

abbrev pub max_user_name : ℕ
max_user_name = 29

abbrev pub max_pass_word : ℕ
max_pass_word = 29

abbrev pub max_db_alias : ℕ
max_db_alias = 127

-- `std::cin >> c` passes over white space.
abbrev pub is_space : ℕ → Bool
is_space c = (c == b' ') || (leb 9 c && leb c 13)

-- The loop of `vSelectMode`: the mode, and the input behind the character.
unfoldable pub select_loop : Bytes → Prompt (ℕ × Bytes)
select_loop [] = waiting
select_loop (c ∷ input) =
    let again = select_loop input in
    if is_space c
    then again
    else if (c == b'N') || (c == b'n')
    then got (default_mode, input)
    else if (c == b'A') || (c == b'a')
    then got (sys_dba, input)
    else if (c == b'Q') || (c == b'q')
    then got (sys_oper, input)
    else if c == 0x03
    then canceled
    else again

-- `vSelectMode`: a mode that is not the default is kept.
unfoldable pub select_mode : ℕ → Bytes → Prompt (ℕ × Bytes)
unfolding select_loop
select_mode mode input = if mode == default_mode then select_loop input else got (mode, input)

-- A text that is too long is refused, and in the default mode an empty one.
abbrev pub refused : ℕ → ℕ → Bytes → Bool
refused max mode str = ltb max (length str) || (is_empty str && (mode == default_mode))

infixl 5 ◌>>=◌
abbrev pub ◌>>=◌ : {A B : Type 0} → Prompt A → (A → Prompt B) → Prompt B
got a >>= f = f a
canceled >>= f = canceled
waiting >>= f = waiting

-- The mode is asked for if anything is missing.
abbrev pub asked_mode : Account → Bytes → Prompt (ℕ × Bytes)
asked_mode a input =
    if is_empty a.user || (is_empty a.password || is_empty a.host)
    then select_mode a.mode input
    else got (a.mode, input)

module _ (stale : Bytes → Bytes) where
  -- `vInputUser`
  unfoldable pub input_user : ℕ → Reads → Prompt (Bytes × Reads)
  input_user mode cancel = canceled
  input_user mode hang = waiting
  input_user mode (line str rs) =
      let again = input_user mode rs in
      if refused max_user_name mode (stale str) then again else got (stale str, rs)

  -- `vInputPassword`: first with no password yet, then with the one that is to be confirmed.
  unfoldable pub input_password : ℕ → Option Bytes → Reads → Prompt (Bytes × Reads)
  input_password mode str1 cancel = canceled
  input_password mode str1 hang = waiting
  input_password mode none (line str rs) =
      input_password mode
        (if refused max_pass_word mode (stale str) then none else some (stale str)) rs
  input_password mode (some str1) (line str rs) =
      let again = input_password mode none rs in
      if same str1 (stale str) then got (str1, rs) else again

  -- `vInputHost`
  unfoldable pub input_host : Reads → Prompt (Bytes × Reads)
  input_host cancel = canceled
  input_host hang = waiting
  input_host (line str rs) =
      let again = input_host rs in
      if ltb max_db_alias (length (stale str)) then again else got (stale str, rs)

  -- The three parts of `inputRequest` behind the mode.
  unfoldable pub request_user : Account → Reads → Prompt (Account × Reads)
  unfolding input_user
  request_user a rs =
      if is_empty a.user || ltb max_user_name (length a.user)
      then (input_user a.mode rs >>= λ r. got (record a { user = r.0 }, r.1))
      else got (a, rs)

  unfoldable pub request_password : Account → Reads → Prompt (Account × Reads)
  unfolding input_password
  request_password a rs =
      if (is_empty a.password || same a.password (codes "*"))
        || ltb max_pass_word (length a.password)
      then (input_password a.mode none rs >>= λ r. got (record a { password = r.0 }, r.1))
      else got (a, rs)

  unfoldable pub request_host : Account → Reads → Prompt (Account × Reads)
  unfolding input_host
  request_host a rs =
      if is_empty a.host || ltb max_db_alias (length a.host)
      then (input_host rs >>= λ r. got (record a { host = r.0 }, r.1))
      else got (a, rs)

  -- `inputRequest`
  unfoldable pub input_request : Account → Bytes → Prompt Account
  input_request a input = asked_mode a input >>= λ m.
      request_user (record a { mode = m.0 }) (reads [] m.1) >>= λ u.
      request_password u.0 u.1 >>= λ p. request_host p.0 p.1 >>= λ h. got h.0
