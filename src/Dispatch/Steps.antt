-- ===== src/Dispatch/Steps.antt =====
-- inc/cDispatcher.h: what every step keeps holds after any interleaving of steps.
use xtru.Common.{
  Option-cases, ℕ, ◌≡◌, sym, ap, ◌∙◌, subst, inl, inr, Option, none, some, List, [], ◌∷◌, arith,
}
use xtru.Dispatch.Synchronize.{State, Event, step, run}

-- What holds of the result, if there is one.
abbrev pub Holds {ℓ κ} : {A : Type ℓ} → (A → Type κ) → Option A → Type κ
Holds P none = Unit
Holds P (some a) = P a

pub Holds-some {ℓ κ} :
    {A : Type ℓ} (P : A → Type κ) (o : Option A) (a : A) → o ≡ some a → Holds P o → P a
Holds-some P o a e h = subst (Holds P) e h

module _ (outcome : ℕ → Option ℕ) where
  -- What each step keeps holds after any steps.
  pub run-keeps {κ} :
      (P : State → Type κ)
      → ((e : Event) (s : State) → P s → Holds P (step outcome e s))
      → (es : List Event) (s s' : State) → run outcome es s ≡ some s'
      → P s
      → P s'
  unfolding run
  run-keeps P keeps [] s s' e h = subst (Holds P) e h
  run-keeps P keeps (a ∷ es) s s' e h = elim (Option-cases (step outcome a s)) [
    | inl none_left ↦ absurd (ground (arith, e, none_left))
    | inr (m, made) ↦
        run-keeps P keeps es m s'
          (ap (λ o. elim o [ none ↦ none | some q ↦ run outcome es q ]) (sym made) ∙ e)
          (Holds-some P (step outcome a s) m made (keeps a s h))
  ]
