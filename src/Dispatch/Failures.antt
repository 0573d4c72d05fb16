-- ===== src/Dispatch/Failures.antt =====
-- inc/cDispatcher.h: the exception that `vSynchronize` stores and the one that it throws.
use xtru.Common.{
  Option-cases, is_empty, ℕ, ◌≡◌, refl, sym, ap, subst, inl, inr, Bool, true, false, not, ◌&&◌,
  Option, none, some, List, [], ◌∷◌, arith,
}
use xtru.Dispatch.Rtn.{break_all}
use xtru.Dispatch.Pool.{pop, synchronized}
use xtru.Dispatch.Synchronize.{
  State, Event, pop_thread, spawn, assign, check, exit_loop, wait, cancel, call, push_thread, Main,
  looping, holding, assigning, checking, leaving, finished, undefined, main_after, main_beside,
  call_at, leave_at, keep_first, step,
}
use xtru.Dispatch.Steps.{Holds}

-- The exception of the first call that failed; the last call stands first.
abbrev pub first_failure : (ℕ → Option ℕ) → List ℕ → Option ℕ
first_failure outcome [] = none
first_failure outcome (t ∷ ts) = keep_first (first_failure outcome ts) (outcome t)

-- What the main thread throws is the stored exception, and it left its loop for a reason.
-- What the main thread throws, of the exception that is stored and of the wish for another round.
abbrev pub LeaveWith : Option ℕ → Bool → Main → Type 0
LeaveWith ep more looping = Unit
LeaveWith ep more (holding th) = Unit
LeaveWith ep more (assigning th) = Unit
LeaveWith ep more checking = Unit
LeaveWith ep more (leaving e) = (e ≡ ep) × (more ≡ false)
LeaveWith ep more (finished e) = (e ≡ ep) × (more ≡ false)
LeaveWith ep more undefined = Unit

-- What the main thread throws is the stored exception, and it left its loop for a reason.
abbrev pub Left : State → Main → Type 0
Left s m = LeaveWith s.ep (not (is_empty s.queue) && s.rtn.cont) m

abbrev pub Failures : (ℕ → Option ℕ) → State → Type 0
Failures outcome s = (s.ep ≡ first_failure outcome s.log) × Left s s.main

and_false : (b : Bool) → (b && false) ≡ false
and_false true = refl
and_false false = refl

keep_first-none : (e : Option ℕ) → keep_first e none ≡ e
keep_first-none none = refl
keep_first-none (some x) = refl

cancel-LeaveWith :
    (m : Main) (ep : Option ℕ) (more : Bool) → LeaveWith ep more m → LeaveWith ep false m
cancel-LeaveWith looping ep more h = tt
cancel-LeaveWith (holding th) ep more h = tt
cancel-LeaveWith (assigning th) ep more h = tt
cancel-LeaveWith checking ep more h = tt
cancel-LeaveWith (leaving e) ep more h = (h.0, refl)
cancel-LeaveWith (finished e) ep more h = (h.0, refl)
cancel-LeaveWith undefined ep more h = tt

call-LeaveWith :
    (m : Main) (caught ep : Option ℕ) (more : Bool)
    → LeaveWith ep more m
    → LeaveWith (keep_first ep caught) more (main_after caught m)
call-LeaveWith m none ep more h = subst (λ o. LeaveWith o more m) (sym (keep_first-none ep)) h
call-LeaveWith looping (some x) ep more h = tt
call-LeaveWith (holding th) (some x) ep more h = tt
call-LeaveWith (assigning th) (some x) ep more h = tt
call-LeaveWith checking (some x) ep more h = tt
call-LeaveWith (leaving e) (some x) ep more h = tt
call-LeaveWith (finished e) (some x) ep more h = tt
call-LeaveWith undefined (some x) ep more h = tt

push-LeaveWith :
    (m : Main) (th : ℕ) (ep : Option ℕ) (more : Bool)
    → LeaveWith ep more m
    → LeaveWith ep more (main_beside th m)
push-LeaveWith looping th ep more h = tt
push-LeaveWith (holding a) th ep more h = tt
push-LeaveWith (assigning a) th ep more h = ground arith
push-LeaveWith checking th ep more h = tt
push-LeaveWith (leaving e) th ep more h = h
push-LeaveWith (finished e) th ep more h = h
push-LeaveWith undefined th ep more h = tt

module _ (outcome : ℕ → Option ℕ) where
  pub step-Failures :
      (e : Event) (s : State) → Failures outcome s → Holds (Failures outcome) (step outcome e s)
  unfolding step pop synchronized break_all
  step-Failures pop_thread s h = ground (arith, h)
  step-Failures spawn s h = ground (arith, h)
  step-Failures assign s h = ground (arith, h)
  step-Failures check s h = ground (arith, h)
  step-Failures exit_loop s h = ground (arith, h)
  step-Failures wait s h = ground (arith, h)
  step-Failures cancel s h = (
    h.0,
    subst (λ b. LeaveWith s.ep b s.main) (sym (and_false (not (is_empty s.queue))))
        (cancel-LeaveWith s.main s.ep (not (is_empty s.queue) && s.rtn.cont) h.1),
  )
  step-Failures (call i) s h = elim (Option-cases (call_at i s.running)) [
    | inl e ↦ rw e tt
    | inr (r, e) ↦ rw e (
      ap (λ o. keep_first o (outcome r.0)) h.0,
      call-LeaveWith s.main (outcome r.0) s.ep (not (is_empty s.queue) && s.rtn.cont) h.1,
    )
  ]
  step-Failures (push_thread i) s h = elim (Option-cases (leave_at i s.running)) [
    | inl e ↦ rw e tt
    | inr (r, e) ↦
        rw e (h.0, push-LeaveWith s.main r.0 s.ep (not (is_empty s.queue) && s.rtn.cont) h.1)
  ]
