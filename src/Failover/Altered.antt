-- ===== src/Failover/Altered.antt =====
-- lib/sql/occi/cFailover.cpp: a connection is altered once, and again when it is forced.
use xtru.Common.{
  ◌==◌, ==_refl, Bool-cases, Option-cases, Bytes, is_none, ℕ, ◌≡◌, refl, ap, ◌∙◌, inl, inr, Bool,
  true, false, not, ◌&&◌, none, some, List, [], ◌∷◌, arith,
}
use xtru.Failover.Session.{
  Failover, Effect, lookup_history, put_history, param_text, event_text, update, send_all,
  alter_session,
}

lookup_history-put_history :
    (c : ℕ) (b : Bool) (h : List (ℕ × Bool)) → lookup_history c (put_history c b h) ≡ some b
lookup_history-put_history c b [] = rw (==_refl c) refl
lookup_history-put_history c b ((d, a) ∷ h) = elim (Bool-cases (c == d)) [
  | inl e ↦ rw (e, ==_refl c) refl
  | inr e ↦ rw (e, e) (lookup_history-put_history c b h)
]

module _ (answers : Bytes → Bool) where
  Marked : ℕ → Effect → Type 0
  Marked conn r = lookup_history conn r.object.history ≡ some (is_none r.thrown)

  send_all-Marked :
      (conn : ℕ) (f : Failover)
      → Marked conn
          (send_all answers conn (record f { history = put_history conn false f.history }))
  unfolding send_all Marked
  send_all-Marked conn f =
      elim (Option-cases
        (update answers (event_text f.params)
          (update answers (param_text f.params) ([], none))).1) [
            | inl e ↦ rw e (lookup_history-put_history conn true (put_history conn false f.history))
            | inr (x, e) ↦ rw e (lookup_history-put_history conn false f.history)
          ]

  kept_mark :
      (conn : ℕ) (f : Failover)
      → lookup_history conn f.history ≡ some true
      → Marked conn (record { sent = []; object = f; thrown = none })
  unfolding Marked
  kept_mark conn f h = h

  pub alter_session_new :
      (conn : ℕ) (force : Bool) (f : Failover)
      → lookup_history conn f.history ≡ none
      → alter_session answers conn force f
        ≡ send_all answers conn (record f { history = put_history conn false f.history })
  unfolding alter_session
  alter_session_new conn force f e = rw (e, alter_session) refl

  pub alter_session_again :
      (conn : ℕ) (force altered : Bool) (f : Failover)
      → lookup_history conn f.history ≡ some altered
      → (altered && not force) ≡ false
      → alter_session answers conn force f
        ≡ send_all answers conn (record f { history = put_history conn false f.history })
  unfolding alter_session
  alter_session_again conn force altered f e h = rw (e, alter_session, h) refl

  alter_session_kept :
      (conn : ℕ) (force altered : Bool) (f : Failover)
      → lookup_history conn f.history ≡ some altered
      → (altered && not force) ≡ true
      → alter_session answers conn force f ≡ record { sent = []; object = f; thrown = none }
  unfolding alter_session
  alter_session_kept conn force altered f e h = rw (e, alter_session, h) refl

  alter_session-Marked :
      (conn : ℕ) (force : Bool) (f : Failover) → Marked conn (alter_session answers conn force f)
  alter_session-Marked conn force f = elim (Option-cases (lookup_history conn f.history)) [
    | inl e ↦ rw (alter_session_new conn force f e) (send_all-Marked conn f)
    | inr (altered, e) ↦ elim (Bool-cases (altered && not force)) [
      | inl h ↦
          let done : lookup_history conn f.history ≡ some true = ground (arith, e, h) in
          rw (alter_session_kept conn force altered f e h) (kept_mark conn f done)
      | inr h ↦ rw (alter_session_again conn force altered f e h) (send_all-Marked conn f)
    ]
  ]

  marked_skip :
      (conn : ℕ) (f : Failover)
      → lookup_history conn f.history ≡ some true
      → alter_session answers conn false f ≡ record { sent = []; object = f; thrown = none }
  marked_skip conn f h = alter_session_kept conn false true f h refl

-- After a call of `vAlterSession`, forced or not, that throws nothing, a further call for the same
-- connection that is not forced sends no statement, changes nothing and throws nothing.
pub alter_session-once :
    (answers : Bytes → Bool) (conn : ℕ) (force : Bool) (f : Failover)
    → (alter_session answers conn force f).thrown ≡ none
    → alter_session answers conn false (alter_session answers conn force f).object
      ≡ record { sent = []; object = (alter_session answers conn force f).object; thrown = none }
unfolding Marked
alter_session-once answers conn force f h =
    let r = alter_session answers conn force f in
    marked_skip answers conn r.object
      (alter_session-Marked answers conn force f ∙ ap (λ e. some (is_none e)) h)
