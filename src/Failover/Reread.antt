-- ===== src/Failover/Reread.antt =====
-- lib/sql/occi/cFailover.cpp: what the statements of `vAlterSession` set.
use xtru.Common.{
  Option-cases, Bytes, length, All, length-append, Error, ℕ, zero, suc, ◌≤◌, ◌≡◌, refl, sym, ap,
  ◌∙◌, inl, inr, Bool, true, false, Option, none, some, List, [], ◌∷◌, ◌++◌, append-nil, arith,
}
use xtru.Failover.Session.{
  StmtType, str_param, int_param, event, Failover, param_text, event_text, put_history,
  lookup_history, altering, update, send_all, alter_session,
}
use xtru.Failover.Altered.{alter_session_new, alter_session_again}
use xtru.Failover.Reader.{
  Named, named, Spelled, Stops, is_blank, clause, read_clauses, read_clauses-clause, read_statement,
  read_statements,
}

-- The parameters that are not events, in their order, and the events.
abbrev pub settings : List Named → List Named
settings [] = []
settings ((k, p) ∷ ps) = elim p.stmt_type [
  | str_param ↦ (k, p) ∷ settings ps
  | int_param ↦ (k, p) ∷ settings ps
  | event ↦ settings ps
]

abbrev pub events : List Named → List Named
events [] = []
events ((k, p) ∷ ps) = elim p.stmt_type [
  | str_param ↦ events ps
  | int_param ↦ events ps
  | event ↦ (k, p) ∷ events ps
]

-- With enough fuel, a text is read as the parameters.
Reads : Bytes → List Named → Type 0
Reads text ps = (n : ℕ) → length text ≤ n → read_clauses n text ≡ some ps

Reads-nil : Reads [] []
unfolding Reads read_clauses
Reads-nil zero h = refl
Reads-nil (suc n) h = refl

Reads-nothing : (ps : List Named) → Reads [] ps → ps ≡ []
unfolding Reads read_clauses
Reads-nothing [] h = refl
Reads-nothing (p ∷ ps) h = let no_clause = h 0 (omega arith) in absurd (ground (arith, no_clause))

Reads-clause :
    (k : Bytes) (t : StmtType) (v rest : Bytes) (ps : List Named)
    → Spelled (named k t v)
    → Stops is_blank rest
    → Reads rest ps
    → Reads (32 ∷ (clause k t v ++ rest)) (named k t v ∷ ps)
unfolding Reads
Reads-clause k t v rest ps h e r zero le = absurd (omega arith)
Reads-clause k t v rest ps h e r (suc n) le =
    rw
      (read_clauses-clause n k t v rest h e, r n (omega (arith, length-append (clause k t v) rest)))
      refl

module _ (k v : Bytes) (ps : List Named) where
  param_text-Stops_cons :
      (t : StmtType)
      → Stops is_blank (param_text ps)
      → Stops is_blank (param_text (named k t v ∷ ps))
  unfolding param_text
  param_text-Stops_cons str_param h = refl
  param_text-Stops_cons int_param h = refl
  param_text-Stops_cons event h = h

  event_text-Stops_cons :
      (t : StmtType)
      → Stops is_blank (event_text ps)
      → Stops is_blank (event_text (named k t v ∷ ps))
  unfolding event_text
  event_text-Stops_cons str_param h = h
  event_text-Stops_cons int_param h = h
  event_text-Stops_cons event h = refl

  param_text-Reads_cons :
      (t : StmtType)
      → Spelled (named k t v)
      → Stops is_blank (param_text ps)
      → Reads (param_text ps) (settings ps)
      → Reads (param_text (named k t v ∷ ps)) (settings (named k t v ∷ ps))
  unfolding param_text
  param_text-Reads_cons str_param h e r =
      Reads-clause k str_param v (param_text ps) (settings ps) h e r
  param_text-Reads_cons int_param h e r =
      Reads-clause k int_param v (param_text ps) (settings ps) h e r
  param_text-Reads_cons event h e r = r

  event_text-Reads_cons :
      (t : StmtType)
      → Spelled (named k t v)
      → Stops is_blank (event_text ps)
      → Reads (event_text ps) (events ps)
      → Reads (event_text (named k t v ∷ ps)) (events (named k t v ∷ ps))
  unfolding event_text
  event_text-Reads_cons str_param h e r = r
  event_text-Reads_cons int_param h e r = r
  event_text-Reads_cons event h e r = Reads-clause k event v (event_text ps) (events ps) h e r

param_text-Stops : (ps : List Named) → Stops is_blank (param_text ps)
unfolding param_text
param_text-Stops [] = tt
param_text-Stops ((k, p) ∷ ps) =
    param_text-Stops_cons k p.value ps p.stmt_type (param_text-Stops ps)

event_text-Stops : (ps : List Named) → Stops is_blank (event_text ps)
unfolding event_text
event_text-Stops [] = tt
event_text-Stops ((k, p) ∷ ps) =
    event_text-Stops_cons k p.value ps p.stmt_type (event_text-Stops ps)

param_text-Reads : (ps : List Named) → All Spelled ps → Reads (param_text ps) (settings ps)
unfolding param_text
param_text-Reads [] h = Reads-nil
param_text-Reads ((k, p) ∷ ps) h =
    param_text-Reads_cons k p.value ps p.stmt_type h.0 (param_text-Stops ps)
      (param_text-Reads ps h.1)

event_text-Reads : (ps : List Named) → All Spelled ps → Reads (event_text ps) (events ps)
unfolding event_text
event_text-Reads [] h = Reads-nil
event_text-Reads ((k, p) ∷ ps) h =
    event_text-Reads_cons k p.value ps p.stmt_type h.0 (event_text-Stops ps)
      (event_text-Reads ps h.1)

-- The statement of a text, or none for the empty one.
abbrev statements : Bytes → List Bytes
statements [] = []
statements (c ∷ text) = altering (c ∷ text) ∷ []

-- Where `update` ends without an exception, it has sent the statement of the text.
update-statements :
    (answers : Bytes → Bool) (text : Bytes) (sent : List Bytes) (e : Option Error)
    → (update answers text (sent, e)).1 ≡ none
    → (e ≡ none) × ((update answers text (sent, e)).0 ≡ sent ++ statements text)
update-statements answers text sent (some x) h = absurd (ground arith)
update-statements answers [] sent none h = (refl, sym (append-nil sent))
update-statements answers (c ∷ text) sent none h = (refl, refl)

read_statement-altering :
    (text : Bytes) → read_statement (altering text) ≡ read_clauses (length text) text
unfolding read_statement
read_statement-altering text = refl

read_statements-cons :
    (s : Bytes) (ss : List Bytes) (ps qs : List Named)
    → read_statement s ≡ some ps
    → read_statements ss ≡ some qs
    → read_statements (s ∷ ss) ≡ some (ps ++ qs)
unfolding read_statements
read_statements-cons s ss ps qs h e = rw (h, e) refl

read_statements-append :
    (text : Bytes) (ps qs : List Named) (ss : List Bytes)
    → Reads text ps
    → read_statements ss ≡ some qs
    → read_statements (statements text ++ ss) ≡ some (ps ++ qs)
unfolding Reads
read_statements-append [] ps qs ss h e = rw (Reads-nothing ps h) e
read_statements-append (c ∷ text) ps qs ss h e =
    read_statements-cons (altering (c ∷ text)) ss ps qs
      (read_statement-altering (c ∷ text) ∙ h (length (c ∷ text)) (omega arith)) e

read_last :
    (text : Bytes) (ps : List Named) → Reads text ps → read_statements (statements text) ≡ some ps
unfolding read_statements
read_last text ps h =
    ap read_statements (sym (append-nil (statements text)))
    ∙ read_statements-append text ps [] [] h refl
    ∙ ap some (append-nil ps)

module _ (answers : Bytes → Bool) where
  -- What `vAlterSession` sends where it throws nothing.
  send_all-statements :
      (conn : ℕ) (f : Failover)
      → (send_all answers conn f).thrown ≡ none
      → (send_all answers conn f).sent
        ≡ statements (param_text f.params) ++ statements (event_text f.params)
  unfolding send_all
  send_all-statements conn f h =
      let first = update answers (param_text f.params) ([], none) in
      let (clean, e) = update-statements answers (event_text f.params) first.0 first.1 h in
      let (_, e0) = update-statements answers (param_text f.params) [] none clean in
      e ∙ ap (λ sent. sent ++ statements (event_text f.params)) e0

  -- Not altered before, or forced.
  alter_session_due :
      (conn : ℕ) (force : Bool) (f : Failover)
      → (lookup_history conn f.history ≡ some true → force ≡ true)
      → alter_session answers conn force f
        ≡ send_all answers conn (record f { history = put_history conn false f.history })
  alter_session_due conn force f h = elim (Option-cases (lookup_history conn f.history)) [
    | inl e ↦ alter_session_new answers conn force f e
    | inr (altered, e) ↦ alter_session_again answers conn force altered f e (ground (arith, h, e))
  ]

-- Where `vAlterSession` has not yet altered the connection, or is forced, and throws nothing, a reader of the
-- statements that it sent finds every parameter with its type, key and value: those that are not events
-- first, then the events, each in the order of the map. The keys and the values are those that such a
-- reader can tell apart, since the code escapes nothing in them.
pub alter_session-read :
    (answers : Bytes → Bool) (conn : ℕ) (force : Bool) (f : Failover)
    → All Spelled f.params
    → (lookup_history conn f.history ≡ some true → force ≡ true)
    → (alter_session answers conn force f).thrown ≡ none
    → read_statements (alter_session answers conn force f).sent
      ≡ some (settings f.params ++ events f.params)
alter_session-read answers conn force f spelled due h =
    let f' = record f { history = put_history conn false f.history } in
    let e = alter_session_due answers conn force f due in
    let clean : (send_all answers conn f').thrown ≡ none = ap (λ r. r.thrown) (sym e) ∙ h in
    rw (e, send_all-statements answers conn f' clean)
      (read_statements-append (param_text f.params) (settings f.params) (events f.params) _
        (param_text-Reads f.params spelled)
        (read_last (event_text f.params) (events f.params) (event_text-Reads f.params spelled)))
