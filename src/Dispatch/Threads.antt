-- ===== src/Dispatch/Threads.antt =====
-- inc/cDispatcher.h: the threads and the tasks that `vSynchronize` accounts for.
use xtru.Common.{
  ◌==◌, if◌then◌else◌, Option-cases, length, ℕ, zero, suc, ◌+◌, ◌≡◌, inl, inr, Option, some, List,
  [], ◌∷◌, arith,
}
use xtru.Dispatch.Pool.{push, pop, synchronized}
use xtru.Dispatch.Synchronize.{
  State, Event, pop_thread, spawn, assign, check, exit_loop, wait, cancel, call, push_thread, Main,
  looping, holding, assigning, checking, leaving, finished, undefined, Phase, calling, returning,
  call_at, leave_at, step,
}
use xtru.Dispatch.Steps.{Holds}

abbrev pub held : Main → ℕ
held (holding th) = 1
held looping = 0
held (assigning th) = 0
held checking = 0
held (leaving e) = 0
held (finished e) = 0
held undefined = 0

abbrev pub Ended : Main → List (ℕ × Phase) → Type 0
Ended (finished e) ws = length ws ≡ 0
Ended looping ws = Unit
Ended checking ws = Unit
Ended (holding th) ws = Unit
Ended (assigning th) ws = Unit
Ended (leaving e) ws = Unit
Ended undefined ws = Unit

-- No thread is lost or made: each is in the pool, at work, or in the hands of the main thread.
abbrev pub Threads : ℕ → State → Type 0
Threads c s =
    (s.pool.parallelism ≡ c)
    × (length s.pool.cont + length s.running + held s.main ≡ c)
    × Ended s.main s.running

call_at-length :
    (i : ℕ) (ws : List (ℕ × Phase)) (r : ℕ × List (ℕ × Phase))
    → call_at i ws ≡ some r
    → length r.1 ≡ length ws
call_at-length i [] r h = ground arith
call_at-length zero ((th, calling t) ∷ ws) r h = ground arith
call_at-length zero ((th, returning) ∷ ws) r h = ground arith
call_at-length (suc i) (w ∷ ws) r h = elim (Option-cases (call_at i ws)) [
  | inl e ↦ ground arith
  | inr (q, e) ↦ ground (arith, call_at-length i ws q e)
]

leave_at-length :
    (i : ℕ) (ws : List (ℕ × Phase)) (r : ℕ × List (ℕ × Phase))
    → leave_at i ws ≡ some r
    → suc (length r.1) ≡ length ws
leave_at-length i [] r h = ground arith
leave_at-length zero ((th, calling t) ∷ ws) r h = ground arith
leave_at-length zero ((th, returning) ∷ ws) r h = ground arith
leave_at-length (suc i) (w ∷ ws) r h = elim (Option-cases (leave_at i ws)) [
  | inl e ↦ ground arith
  | inr (q, e) ↦ ground (arith, leave_at-length i ws q e)
]

-- How often a task stands in a list, and in the calls that are under way.
abbrev pub times : ℕ → List ℕ → ℕ
times t [] = 0
times t (u ∷ us) = (if t == u then 1 else 0) + times t us

abbrev pub times_called : ℕ → List (ℕ × Phase) → ℕ
times_called t [] = 0
times_called t ((th, calling u) ∷ ws) = (if t == u then 1 else 0) + times_called t ws
times_called t ((th, returning) ∷ ws) = times_called t ws

call_at-times :
    (t i : ℕ) (ws : List (ℕ × Phase)) (r : ℕ × List (ℕ × Phase))
    → call_at i ws ≡ some r
    → (if t == r.0 then 1 else 0) + times_called t r.1 ≡ times_called t ws
call_at-times t i [] r h = ground arith
call_at-times t zero ((th, calling u) ∷ ws) r h = ground arith
call_at-times t zero ((th, returning) ∷ ws) r h = ground arith
call_at-times t (suc i) ((th, calling u) ∷ ws) r h = elim (Option-cases (call_at i ws)) [
  | inl e ↦ ground arith
  | inr (q, e) ↦ ground (arith, call_at-times t i ws q e)
]
call_at-times t (suc i) ((th, returning) ∷ ws) r h = elim (Option-cases (call_at i ws)) [
  | inl e ↦ ground arith
  | inr (q, e) ↦ ground (arith, call_at-times t i ws q e)
]

leave_at-times :
    (t i : ℕ) (ws : List (ℕ × Phase)) (r : ℕ × List (ℕ × Phase))
    → leave_at i ws ≡ some r
    → times_called t r.1 ≡ times_called t ws
leave_at-times t i [] r h = ground arith
leave_at-times t zero ((th, calling u) ∷ ws) r h = ground arith
leave_at-times t zero ((th, returning) ∷ ws) r h = ground arith
leave_at-times t (suc i) ((th, calling u) ∷ ws) r h = elim (Option-cases (leave_at i ws)) [
  | inl e ↦ ground arith
  | inr (q, e) ↦ ground (arith, leave_at-times t i ws q e)
]
leave_at-times t (suc i) ((th, returning) ∷ ws) r h = elim (Option-cases (leave_at i ws)) [
  | inl e ↦ ground arith
  | inr (q, e) ↦ ground (arith, leave_at-times t i ws q e)
]

-- The task `t` is waiting, called or over as often as it stands among the tasks.
abbrev pub Tasks : ℕ → ℕ → State → Type 0
Tasks t n s = times t s.queue + times_called t s.running + times t s.log ≡ n

module _ (outcome : ℕ → Option ℕ) where
  pub step-Threads :
      (c : ℕ) (e : Event) (s : State) → Threads c s → Holds (Threads c) (step outcome e s)
  unfolding step pop push synchronized
  step-Threads c pop_thread s h = ground arith
  step-Threads c spawn s h = ground arith
  step-Threads c assign s h = ground arith
  step-Threads c check s h = ground arith
  step-Threads c exit_loop s h = ground arith
  step-Threads c wait s h = ground arith
  step-Threads c cancel s h = h
  step-Threads c (call i) s h = elim (Option-cases (call_at i s.running)) [
    | inl e ↦ ground arith
    | inr (r, e) ↦ ground (arith, call_at-length i s.running r e)
  ]
  step-Threads c (push_thread i) s h = elim (Option-cases (leave_at i s.running)) [
    | inl e ↦ ground arith
    | inr (r, e) ↦ ground (arith, leave_at-length i s.running r e)
  ]

  pub step-Tasks :
      (t n : ℕ) (e : Event) (s : State) → Tasks t n s → Holds (Tasks t n) (step outcome e s)
  unfolding step pop push synchronized
  step-Tasks t n pop_thread s h = ground arith
  step-Tasks t n spawn s h = ground arith
  step-Tasks t n assign s h = ground arith
  step-Tasks t n check s h = ground arith
  step-Tasks t n exit_loop s h = ground arith
  step-Tasks t n wait s h = ground arith
  step-Tasks t n cancel s h = h
  step-Tasks t n (call i) s h = elim (Option-cases (call_at i s.running)) [
    | inl e ↦ ground arith
    | inr (r, e) ↦ ground (arith, call_at-times t i s.running r e)
  ]
  step-Tasks t n (push_thread i) s h = elim (Option-cases (leave_at i s.running)) [
    | inl e ↦ ground arith
    | inr (r, e) ↦ ground (arith, leave_at-times t i s.running r e)
  ]
