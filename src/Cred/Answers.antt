-- ===== src/Cred/Answers.antt =====
-- app/mkcrd/cInput.cpp: answers that fit are taken.
use xtru.Common.{
  ltb, ◌==◌, if◌then◌else◌, Bytes, same_refl, length, All, ℕ, ◌≤◌, ◌≡◌, refl, ap, ◌∙◌, Bool, false,
  ◌||◌, none, some, [], ◌∷◌, ◌++◌, append-nil, append_assoc, arith,
}
use xtru.Cred.Account.{Account, default_mode}
use xtru.Cred.Input.{
  got, Reads, line, reads, max_user_name, max_pass_word, max_db_alias, refused, request_user,
  request_password, request_host, input_request, input_password, ◌>>=◌, select_mode,
}

-- CTRL+C and the ends of a line.
abbrev pub is_control : ℕ → Bool
is_control c = (c == 0x0a) || ((c == 0x0d) || (c == 0x03))

abbrev pub Typed : Bytes → Type 0
Typed = All (λ c. is_control c ≡ false)

reads-line :
    (str s rest : Bytes) → Typed s → reads str (s ++ 0x0a ∷ rest) ≡ line (str ++ s) (reads [] rest)
unfolding reads
reads-line str [] rest h = rw (append-nil str) refl
reads-line str (c ∷ s) rest h =
    rw (← append_assoc str (c ∷ []) s) (ground (arith, h.0, reads-line (str ++ c ∷ []) s rest h.1))

module _ (stale : Bytes → Bytes) where
  request_user_taken :
      (p h : Bytes) (m : ℕ) (str : Bytes) (rs : Reads)
      → stale str ≡ str
      → refused max_user_name m str ≡ false
      → request_user stale (record { user = []; password = p; host = h; mode = m }) (line str rs)
        ≡ got (record { user = str; password = p; host = h; mode = m }, rs)
  unfolding request_user
  request_user_taken p h m str rs e f = rw (e, f) refl

  input_password_step :
      (mode : ℕ) (str : Bytes) (rs : Reads)
      → input_password stale mode none (line str rs)
        ≡ input_password stale mode
            (if refused max_pass_word mode (stale str) then none else some (stale str))
            rs
  unfolding input_password
  input_password_step mode str rs = refl

  input_password_confirmed :
      (mode : ℕ) (str : Bytes) (rs : Reads)
      → stale str ≡ str
      → input_password stale mode (some str) (line str rs) ≡ got (str, rs)
  unfolding input_password
  input_password_confirmed mode str rs e = rw (e, same_refl str) refl

  input_password_taken :
      (mode : ℕ) (str : Bytes) (rs : Reads)
      → stale str ≡ str
      → refused max_pass_word mode str ≡ false
      → input_password stale mode none (line str (line str rs)) ≡ got (str, rs)
  input_password_taken mode str rs e f =
      input_password_step mode str (line str rs)
      ∙ rw (e, f) (input_password_confirmed mode str rs e)

  request_password_taken :
      (u h : Bytes) (m : ℕ) (str : Bytes) (rs : Reads)
      → stale str ≡ str
      → refused max_pass_word m str ≡ false
      → request_password stale
          (record { user = u; password = []; host = h; mode = m })
          (line str (line str rs))
        ≡ got (record { user = u; password = str; host = h; mode = m }, rs)
  unfolding request_password
  request_password_taken u h m str rs e f =
      ap
        (λ r. r >>= λ (x : Bytes × Reads).
          got (record { user = u; password = x.0; host = h; mode = m }, x.1))
        (input_password_taken m str rs e f)

  request_host_taken :
      (u p : Bytes) (m : ℕ) (str : Bytes) (rs : Reads)
      → stale str ≡ str
      → ltb max_db_alias (length str) ≡ false
      → request_host stale (record { user = u; password = p; host = []; mode = m }) (line str rs)
        ≡ got (record { user = u; password = p; host = str; mode = m }, rs)
  unfolding request_host
  request_host_taken u p m str rs e f = rw (e, f) refl

-- What the user types: the mode, the user, the password twice, and the host.
abbrev pub typed : Bytes → Bytes → Bytes → Bytes
typed user password host =
    b'N' ∷ (user ++ 0x0a ∷ (password ++ 0x0a ∷ (password ++ 0x0a ∷ (host ++ 0x0a ∷ []))))

abbrev pub nobody : Account
nobody = record { user = []; password = []; host = []; mode = default_mode }

accepts :
    (max : ℕ) (c : ℕ) (str : Bytes)
    → length (c ∷ str) ≤ max
    → refused max default_mode (c ∷ str) ≡ false
accepts max c str h = ground arith

-- Where the dangling pointer still shows the text, `inputRequest` with nothing given returns, for the
-- character of the normal mode and four lines with a user and twice a password that are not empty and
-- a host, with lengths of at most 29, 29 and 127 bytes and without control characters, the account
-- that was typed.
pub input_request-typed :
    (stale : Bytes → Bytes) (c d : ℕ) (user password host : Bytes)
    → stale (c ∷ user) ≡ c ∷ user
    → stale (d ∷ password) ≡ d ∷ password
    → stale host ≡ host
    → Typed (c ∷ user)
    → Typed (d ∷ password)
    → Typed host
    → length (c ∷ user) ≤ max_user_name
    → length (d ∷ password) ≤ max_pass_word
    → length host ≤ max_db_alias
    → input_request stale nobody (typed (c ∷ user) (d ∷ password) host)
      ≡ got (record { user = c ∷ user; password = d ∷ password; host = host; mode = default_mode })
unfolding input_request select_mode
input_request-typed stale c d user password host su sp sh tu tp th lu lp lh =
    rw
      (
        reads-line [] (c ∷ user)
            ((d ∷ password) ++ 0x0a ∷ ((d ∷ password) ++ 0x0a ∷ (host ++ 0x0a ∷ []))) tu,
        reads-line [] (d ∷ password) ((d ∷ password) ++ 0x0a ∷ (host ++ 0x0a ∷ [])) tp,
        reads-line [] (d ∷ password) (host ++ 0x0a ∷ []) tp,
        reads-line [] host [] th,
        request_user_taken stale [] [] default_mode (c ∷ user)
            (line (d ∷ password) (line (d ∷ password) (line host (reads [] [])))) su
            (accepts max_user_name c user lu),
        request_password_taken stale (c ∷ user) [] default_mode (d ∷ password)
            (line host (reads [] [])) sp (accepts max_pass_word d password lp),
        request_host_taken stale (c ∷ user) (d ∷ password) default_mode host (reads [] []) sh
            (ground (arith, lh)),
      )
      refl
