-- ===== src/Failover/Samples.antt =====
-- The theorems on altered sessions at concrete parameters, and tests of the definitions.
use xtru.Common.{
  Bytes, codes, All, Result, ◌>>=◌, runtime_error, aborted, err, ok, ℕ, ◌≡◌, refl, Bool, true,
  false, not, ◌&&◌, none, some, List, [], ◌∷◌, ◌++◌, arith,
}
use xtru.Failover.Session.{
  Param, Failover, make_failover, add_param, str_param, int_param, event, alter_session, del_param,
  taf_event_handler, fo_error, retry, checkout,
}
use xtru.Failover.Altered.{alter_session-once}
use xtru.Failover.Reader.{
  Free, is_blank, is_quote, ends_word, ends_number, Spelled, read_statements,
}
use xtru.Failover.Reread.{settings, events, alter_session-read}

abbrev answers : Bytes → Bool
answers sql = true

configured : Result Failover
unfolding add_param make_failover
configured = add_param str_param (codes "nls_lang") (codes "C") (make_failover 400) >>= λ f.
    add_param int_param (codes "limit") (codes "5") f >>= λ g.
    add_param event (codes "10046") (codes "off") g

abbrev session : Failover
session = record {
  params =
      (codes "10046", record { stmt_type = event; value = codes "off" })
      ∷ (codes "limit", record { stmt_type = int_param; value = codes "5" })
      ∷ (codes "nls_lang", record { stmt_type = str_param; value = codes "C" })
      ∷ [];
  history = [];
  retries = 0;
  taf_delay_time = 60;
}

configured_eq : configured ≡ ok session
unfolding configured
configured_eq = refl

sent :
    (alter_session answers 3 true session).sent
    ≡ codes "alter session set limit=5 nls_lang='C'"
      ∷ codes "alter session set events '10046 off'"
      ∷ []
unfolding alter_session
sent = refl

not_thrown : (alter_session answers 3 true session).thrown ≡ none
unfolding alter_session
not_thrown = refl

alter_session-once_example :
    alter_session answers 3 false (alter_session answers 3 true session).object
    ≡ record { sent = []; object = (alter_session answers 3 true session).object; thrown = none }
alter_session-once_example = alter_session-once answers 3 true session not_thrown

abbrev limit_then_language : List (Bytes × Param)
limit_then_language =
    (codes "limit", record { stmt_type = int_param; value = codes "5" })
    ∷ (codes "nls_lang", record { stmt_type = str_param; value = codes "C" })
    ∷ []

in_order :
    settings session.params ++ events session.params
    ≡ limit_then_language ++ (codes "10046", record { stmt_type = event; value = codes "off" }) ∷ []
in_order = refl

has_none : (ℕ → Bool) → Bytes → Bool
has_none stop [] = true
has_none stop (c ∷ s) = not (stop c) && has_none stop s

by_test : (stop : ℕ → Bool) (s : Bytes) → has_none stop s ≡ true → Free stop s
unfolding has_none
by_test stop [] h = tt
by_test stop (c ∷ s) h = (ground arith, by_test stop s (ground arith))

spelled : All Spelled session.params
unfolding has_none
spelled = (
  (by_test is_blank (codes "10046") refl, by_test is_quote (codes "off") refl),
  (
    (by_test ends_word (codes "limit") refl, by_test ends_number (codes "5") refl),
    ((by_test ends_word (codes "nls_lang") refl, by_test is_quote (codes "C") refl), tt),
  ),
)

alter_session-read_example :
    read_statements (alter_session answers 3 true session).sent
    ≡ some (settings session.params ++ events session.params)
alter_session-read_example =
    alter_session-read answers 3 true session spelled (λ _. refl) not_thrown

-- A quotation mark in a value is not escaped: the reader finds another parameter than the one that was set.
quote_in_value :
    read_statements (
      (alter_session answers 3 true (record session {
        params = (codes "a", record { stmt_type = str_param; value = codes "x' b='y" }) ∷ [];
      })).sent)
    ≡ some (
        (codes "a", record { stmt_type = str_param; value = codes "x" })
        ∷ (codes "b", record { stmt_type = str_param; value = codes "y" })
        ∷ [])
unfolding alter_session read_statements
quote_in_value = refl

failover_error :
    taf_event_handler answers fo_error 3 session
    ≡ (record { sent = []; object = record session { retries = 1 }; thrown = none }, 10, retry)
unfolding taf_event_handler
failover_error = refl

unknown_code :
    checkout answers (some 1) 3 session
    ≡ record { sent = []; object = session; thrown = some runtime_error }
unfolding checkout
unknown_code = refl

missing_key : del_param (codes "none") session ≡ err aborted
unfolding del_param
missing_key = refl
