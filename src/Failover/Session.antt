-- ===== src/Failover/Session.antt =====
-- lib/sql/occi/cFailover.cpp: the class `cFailover`. A connection is a number in place of the text of its
-- address. What the database answers to a statement is a parameter.
use xtru.Common.{
  ltb, ◌==◌, if◌then◌else◌, Bytes, codes, same, Error, Result, ◌>>◌, guard, runtime_error, aborted,
  ok, is_none, ℕ, ◌+◌, Bool, true, false, not, ◌&&◌, ◌||◌, Option, none, some, List, [], ◌∷◌, ◌++◌,
}

pub data StmtType : Type 0 where
  str_param int_param event : StmtType

pub record Param : Type 0 where
  pub stmt_type : StmtType
  pub value : Bytes

-- `oMap`, in the order of its keys, and `oHistMap`.
pub record Failover : Type 0 where
  pub params : List (Bytes × Param)
  pub history : List (ℕ × Bool)
  pub retries : ℕ
  pub taf_delay_time : ℕ

-- The constructor: a delay of more than 300 seconds is one of 60.
unfoldable pub make_failover : ℕ → Failover
make_failover delay = record {
  params = [];
  history = [];
  retries = 0;
  taf_delay_time = if ltb 300 delay then 60 else delay;
}

-- `std::less` of two strings.
abbrev pub less : Bytes → Bytes → Bool
less [] [] = false
less [] (d ∷ t) = true
less (c ∷ s) [] = false
less (c ∷ s) (d ∷ t) = ltb c d || ((c == d) && less s t)

abbrev pub lookup_param : Bytes → List (Bytes × Param) → Option Param
lookup_param k [] = none
lookup_param k ((j, p) ∷ ps) = if same k j then some p else lookup_param k ps

abbrev pub insert_param : Bytes → Param → List (Bytes × Param) → List (Bytes × Param)
insert_param k p [] = (k, p) ∷ []
insert_param k p ((j, q) ∷ ps) =
    if less k j then (k, p) ∷ (j, q) ∷ ps else (j, q) ∷ insert_param k p ps

abbrev pub set_value : Bytes → Bytes → List (Bytes × Param) → List (Bytes × Param)
set_value k v [] = []
set_value k v ((j, q) ∷ ps) =
    if same k j then (j, record q { value = v }) ∷ ps else (j, q) ∷ set_value k v ps

abbrev pub remove_param : Bytes → List (Bytes × Param) → List (Bytes × Param)
remove_param k [] = []
remove_param k ((j, q) ∷ ps) = if same k j then ps else (j, q) ∷ remove_param k ps

-- `vModParam` and `vDelParam`
unfoldable pub mod_param : Bytes → Bytes → Failover → Result Failover
mod_param k v f =
    guard (not (is_none (lookup_param k f.params))) aborted
    >> ok (record f { params = set_value k v f.params })

unfoldable pub del_param : Bytes → Failover → Result Failover
del_param k f =
    guard (not (is_none (lookup_param k f.params))) aborted
    >> ok (record f { params = remove_param k f.params })

-- `oAddParam`: a key that exists keeps its type.
unfoldable pub add_param : StmtType → Bytes → Bytes → Failover → Result Failover
unfolding mod_param
add_param t k v f = elim (lookup_param k f.params) [
  | none ↦ ok (record f { params = insert_param k (record { stmt_type = t; value = v }) f.params })
  | some p ↦ mod_param k v f
]

-- What one parameter adds to `oParam` and to `oEvent`.
abbrev pub clauses : Bytes × Param → Bytes × Bytes
clauses (k, p) = elim p.stmt_type [
  | str_param ↦ (codes " " ++ (k ++ (codes "='" ++ (p.value ++ codes "'"))), [])
  | int_param ↦ (codes " " ++ (k ++ (codes "=" ++ p.value)), [])
  | event ↦ ([], codes " events '" ++ (k ++ (codes " " ++ (p.value ++ codes "'"))))
]

unfoldable pub param_text : List (Bytes × Param) → Bytes
param_text [] = []
param_text (p ∷ ps) = (clauses p).0 ++ param_text ps

unfoldable pub event_text : List (Bytes × Param) → Bytes
event_text [] = []
event_text (p ∷ ps) = (clauses p).1 ++ event_text ps

abbrev pub lookup_history : ℕ → List (ℕ × Bool) → Option Bool
lookup_history c [] = none
lookup_history c ((d, b) ∷ h) = if c == d then some b else lookup_history c h

-- `oHistMap[sConn] = b`
abbrev pub put_history : ℕ → Bool → List (ℕ × Bool) → List (ℕ × Bool)
put_history c b [] = (c, b) ∷ []
put_history c b ((d, a) ∷ h) = if c == d then (c, b) ∷ h else (d, a) ∷ put_history c b h

-- What a call does: the statements that were sent, the object, and the exception if there is one.
pub record Effect : Type 0 where
  pub sent : List Bytes
  pub object : Failover
  pub thrown : Option Error

abbrev pub altering : Bytes → Bytes
altering text = codes "alter session set" ++ text

-- `executeUpdate` of a text that is not empty; an answer of `false` is an `SQLException`, which is
-- converted to a `std::runtime_error`.
abbrev pub update : (Bytes → Bool) → Bytes → List Bytes × Option Error → List Bytes × Option Error
update answers text (sent, some e) = (sent, some e)
update answers [] (sent, none) = (sent, none)
update answers (c ∷ text) (sent, none) = (
  sent ++ altering (c ∷ text) ∷ [],
  if answers (altering (c ∷ text)) then none else some runtime_error,
)

-- `FailOverEventType`
pub data FailoverEvent : Type 0 where
  fo_begin fo_abort fo_end fo_reauth fo_error fo_other : FailoverEvent

pub data Answer : Type 0 where
  success retry : Answer

-- What `getServerVersion` of `vCheckout` throws: the codes that are ignored.
abbrev pub is_ignored : ℕ → Bool
is_ignored code = (code == 25401) || ((code == 25402) || (code == 25408))

module _ (answers : Bytes → Bool) where
  -- The statements of `vAlterSession`, and the mark that they are done.
  unfoldable pub send_all : ℕ → Failover → Effect
  unfolding param_text event_text
  send_all conn f =
      let r =
        update answers (event_text f.params) (update answers (param_text f.params) ([], none)) in
      record {
        sent = r.0;
        object = if is_none r.1 then record f { history = put_history conn true f.history } else f;
        thrown = r.1;
      }

  -- `vAlterSession`
  unfoldable pub alter_session : ℕ → Bool → Failover → Effect
  unfolding send_all
  alter_session conn force f = elim (lookup_history conn f.history) [
    | none ↦ send_all conn (record f { history = put_history conn false f.history })
    | some altered ↦
        if altered && not force
        then record { sent = []; object = f; thrown = none }
        else send_all conn (record f { history = put_history conn false f.history })
  ]

  -- `iTafEventHandler`: its effect, the seconds that it sleeps, and what it returns.
  unfoldable pub taf_event_handler : FailoverEvent → ℕ → Failover → Effect × ℕ × Answer
  unfolding alter_session
  taf_event_handler fo_begin conn f =
      (record { sent = []; object = f; thrown = none }, f.taf_delay_time, success)
  taf_event_handler fo_abort conn f = (record { sent = []; object = f; thrown = none }, 0, success)
  taf_event_handler fo_end conn f = (alter_session conn true f, 0, success)
  taf_event_handler fo_reauth conn f = (alter_session conn true f, 0, success)
  taf_event_handler fo_error conn f = (
    record { sent = []; object = record f { retries = f.retries + 1 }; thrown = none },
    10,
    retry,
  )
  taf_event_handler fo_other conn f = (record { sent = []; object = f; thrown = none }, 0, success)

  -- `vCheckout`; `ping` is the code of the exception of `getServerVersion`.
  unfoldable pub checkout : Option ℕ → ℕ → Failover → Effect
  unfolding alter_session
  checkout none conn f = alter_session conn true f
  checkout (some code) conn f =
      if is_ignored code
      then alter_session conn true f
      else record { sent = []; object = f; thrown = some runtime_error }
