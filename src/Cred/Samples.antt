-- ===== src/Cred/Samples.antt =====
-- The theorems about credentials at concrete texts, and tests.
use xtru.Common.{Bytes, codes, ◌≡◌, refl, [], ◌∷◌, ◌++◌, arith}
use xtru.Cred.Account.{Account, split_user, get_input_string, sys_dba}
use xtru.Cred.Input.{
  got, waiting, canceled, input_request, request_user, request_password, request_host, select_mode,
  reads,
}
use xtru.Cred.Split.{split_user-get_input_string}
use xtru.Cred.Fits.{Fits, input_request-Fits}
use xtru.Cred.Answers.{nobody, typed, input_request-typed}

abbrev scott : Account
scott = record {
  user = codes "SCOTT";
  password = codes "TIGER";
  host = codes "ORCL";
  mode = sys_dba;
}

scott_text : get_input_string scott ≡ codes "SCOTT/TIGER@ORCL AS SYSDBA"
unfolding get_input_string
scott_text = refl

-- `iMode_` holds 77 before.
abbrev unset : Account
unset = record { user = []; password = []; host = []; mode = 77 }

no_password :
    split_user (codes "SCOTT@ORCL") unset
    ≡ record { user = codes "SCOTT"; password = []; host = codes "ORCL"; mode = 77 }
unfolding split_user
no_password = refl

small_letters :
    split_user (codes "SCOTT/TIGER as sysoper") unset
    ≡ record { user = codes "SCOTT"; password = codes "TIGER"; host = []; mode = 4 }
unfolding split_user
small_letters = refl

split_user-get_input_string_example :
    split_user (get_input_string scott) unset
    ≡ record { user = codes "SCOTT"; password = codes "TIGER"; host = codes "ORCL"; mode = sys_dba }
split_user-get_input_string_example =
    split_user-get_input_string scott unset (refl, (refl, (refl, (refl, (refl, tt)))))
      (refl, (refl, (refl, (refl, (refl, tt))))) (refl, (refl, (refl, (refl, tt))))

abbrev shown : Bytes → Bytes
shown str = str

abbrev typed_text : Bytes
typed_text = typed (codes "SCOTT") (codes "TIGER") (codes "ORCL")

abbrev taken : Account
taken = record { user = codes "SCOTT"; password = codes "TIGER"; host = codes "ORCL"; mode = 0 }

typed_lem : input_request shown nobody typed_text ≡ got taken
unfolding input_request request_user request_password request_host select_mode reads
typed_lem = refl

-- The wrong confirmation starts the input of the password again; CTRL+C and the end of the input.
confirmed_wrong :
    input_request shown
      (record scott { password = codes "*" })
      (codes "A" ++ 10 ∷ (codes "B" ++ 10 ∷ (codes "C" ++ 13 ∷ (codes "C" ++ 10 ∷ []))))
    ≡ got (record scott { password = codes "C" })
unfolding input_request request_user request_password request_host select_mode reads
confirmed_wrong = refl

interrupted : input_request shown nobody (codes "qAB" ++ 3 ∷ []) ≡ canceled
unfolding input_request request_user request_password request_host select_mode reads
interrupted = refl

ended : input_request shown nobody (codes "nAB") ≡ waiting
unfolding input_request request_user request_password request_host select_mode reads
ended = refl

input_request-Fits_example : Fits taken
input_request-Fits_example = input_request-Fits shown nobody typed_text taken typed_lem

input_request-typed_example : input_request shown nobody typed_text ≡ got taken
input_request-typed_example =
    input_request-typed shown b'S' b'T' (codes "COTT") (codes "IGER") (codes "ORCL") refl refl refl
      (refl, (refl, (refl, (refl, (refl, tt))))) (refl, (refl, (refl, (refl, (refl, tt)))))
      (refl, (refl, (refl, (refl, tt)))) (omega arith) (omega arith) (omega arith)
