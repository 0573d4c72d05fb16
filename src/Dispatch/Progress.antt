-- ===== src/Dispatch/Progress.antt =====
-- inc/cDispatcher.h: `vSynchronize` always goes on to its end.
use xtru.Common.{
  if◌then◌else◌, Bool-cases, Option-cases, length, ok, is_empty, ℕ, zero, suc, ◌+◌, ◌*◌, ◌≤◌, ◌<◌,
  ◌≡◌, sym, ap, ◌∙◌, subst, ◌⊎◌, inl, inr, Bool, true, false, not, ◌&&◌, Option, none, some, List,
  [], ◌∷◌, arith,
}
use xtru.Dispatch.Rtn.{Rtn}
use xtru.Dispatch.Pool.{pop, synchronized}
use xtru.Dispatch.Synchronize.{
  State, Event, pop_thread, spawn, assign, check, exit_loop, wait, cancel, call, push_thread, Main,
  looping, holding, assigning, checking, leaving, finished, undefined, Phase, calling, returning,
  call_at, leave_at, is_some, is_defined, step, run, start,
}
use xtru.Dispatch.Steps.{Holds, run-keeps}
use xtru.Dispatch.Invariant.{started, start-started, started-Threads}
use xtru.Dispatch.Threads.{Threads, step-Threads}

abbrev work : List (ℕ × Phase) → ℕ
work [] = 0
work ((th, calling t) ∷ ws) = 3 + work ws
work ((th, returning) ∷ ws) = 1 + work ws

abbrev ahead : Main → ℕ
ahead looping = 3
ahead (holding th) = 2
ahead (assigning th) = 5
ahead checking = 4
ahead (leaving e) = 1
ahead (finished e) = 0
ahead undefined = 0

-- The steps that are left are at most these.
abbrev measure : State → ℕ
measure s = 8 * length s.queue + work s.running + ahead s.main

call_at-work :
    (i : ℕ) (ws : List (ℕ × Phase)) (r : ℕ × List (ℕ × Phase))
    → call_at i ws ≡ some r
    → 2 + work r.1 ≡ work ws
call_at-work i [] r h = ground arith
call_at-work zero ((th, calling u) ∷ ws) r h = ground arith
call_at-work zero ((th, returning) ∷ ws) r h = ground arith
call_at-work (suc i) ((th, calling u) ∷ ws) r h = elim (Option-cases (call_at i ws)) [
  | inl e ↦ ground arith
  | inr (q, e) ↦ ground (arith, call_at-work i ws q e)
]
call_at-work (suc i) ((th, returning) ∷ ws) r h = elim (Option-cases (call_at i ws)) [
  | inl e ↦ ground arith
  | inr (q, e) ↦ ground (arith, call_at-work i ws q e)
]

leave_at-work :
    (i : ℕ) (ws : List (ℕ × Phase)) (r : ℕ × List (ℕ × Phase))
    → leave_at i ws ≡ some r
    → 1 + work r.1 ≡ work ws
leave_at-work i [] r h = ground arith
leave_at-work zero ((th, calling u) ∷ ws) r h = ground arith
leave_at-work zero ((th, returning) ∷ ws) r h = ground arith
leave_at-work (suc i) ((th, calling u) ∷ ws) r h = elim (Option-cases (leave_at i ws)) [
  | inl e ↦ ground arith
  | inr (q, e) ↦ ground (arith, leave_at-work i ws q e)
]
leave_at-work (suc i) ((th, returning) ∷ ws) r h = elim (Option-cases (leave_at i ws)) [
  | inl e ↦ ground arith
  | inr (q, e) ↦ ground (arith, leave_at-work i ws q e)
]

abbrev pub is_cancel : Event → Bool
is_cancel cancel = true
is_cancel pop_thread = false
is_cancel spawn = false
is_cancel assign = false
is_cancel check = false
is_cancel exit_loop = false
is_cancel wait = false
is_cancel (call i) = false
is_cancel (push_thread i) = false

-- The steps that are not a stop from outside.
abbrev pub own_steps : List Event → ℕ
own_steps [] = 0
own_steps (e ∷ es) = (if is_cancel e then 0 else 1) + own_steps es

-- The main thread has its thread only for a task.
abbrev Waiting : State → Type 0
Waiting s = elim s.main [ holding th ↦ is_empty s.queue ≡ false | _ ↦ Unit {0} ]

abbrev pub has_finished : Main → Bool
has_finished (finished e) = true
has_finished looping = false
has_finished (holding th) = false
has_finished (assigning th) = false
has_finished checking = false
has_finished undefined = false
has_finished (leaving e) = false

module _ (outcome : ℕ → Option ℕ) where
  step-measure :
      (e : Event) (s s' : State)
      → step outcome e s ≡ some s'
      → (if is_cancel e then 0 else 1) + measure s' ≤ measure s
  unfolding step pop
  step-measure pop_thread s s' h = ground arith
  step-measure spawn s s' h = ground arith
  step-measure assign s s' h = ground arith
  step-measure check s s' h = ground arith
  step-measure exit_loop s s' h = ground arith
  step-measure wait s s' h = ground arith
  step-measure cancel s s' h = ground arith
  step-measure (call i) s s' h = elim (Option-cases (call_at i s.running)) [
    | inl e ↦ ground arith
    | inr (r, e) ↦ ground (arith, call_at-work i s.running r e)
  ]
  step-measure (push_thread i) s s' h = elim (Option-cases (leave_at i s.running)) [
    | inl e ↦ ground arith
    | inr (r, e) ↦ ground (arith, leave_at-work i s.running r e)
  ]

  run-measure :
      (es : List Event) (s s' : State)
      → run outcome es s ≡ some s'
      → own_steps es + measure s' ≤ measure s
  unfolding run
  run-measure [] s s' h = ground arith
  run-measure (e ∷ es) s s' h = elim (Option-cases (step outcome e s)) [
    | inl stuck ↦ absurd (ground (arith, h, stuck))
    | inr (m, made) ↦
        let rest =
          run-measure es m s'
            (ap (λ o. elim o [ none ↦ none | some q ↦ run outcome es q ]) (sym made) ∙ h) in
        omega (arith, rest, step-measure e s m made)
  ]

  step-Waiting : (e : Event) (s : State) → Waiting s → Holds Waiting (step outcome e s)
  unfolding step pop synchronized
  step-Waiting pop_thread s h = ground arith
  step-Waiting spawn s h = ground arith
  step-Waiting assign s h = ground arith
  step-Waiting check s h = ground arith
  step-Waiting exit_loop s h = ground arith
  step-Waiting wait s h = ground arith
  step-Waiting cancel s h = h
  step-Waiting (call i) s h = elim (Option-cases (call_at i s.running)) [
    | inl e ↦ ground arith
    | inr (r, e) ↦ ground arith
  ]
  step-Waiting (push_thread i) s h = elim (Option-cases (leave_at i s.running)) [
    | inl e ↦ ground arith
    | inr (r, e) ↦ ground arith
  ]

  -- A step of the first worker, or else of the main thread.
  next : State → Event
  next s = elim s.running [
    | [] ↦ elim s.main [
      | looping ↦ if not (is_empty s.queue) && s.rtn.cont then pop_thread else exit_loop
      | holding th ↦ spawn
      | assigning th ↦ assign
      | checking ↦ check
      | undefined ↦ wait
      | leaving e ↦ wait
      | finished e ↦ wait
    ]
    | (th, calling t) ∷ ws ↦ call 0
    | (th, returning) ∷ ws ↦ push_thread 0
  ]

  next-goes :
      (c : ℕ) (s : State)
      → 0 < c
      → Threads c s
      → Waiting s
      → has_finished s.main ≡ false
      → is_defined s.main ≡ true
      → (is_some (step outcome (next s) s) ≡ true) × (is_cancel (next s) ≡ false)
  unfolding step next pop synchronized
  next-goes c s hc h w f d = ground arith

-- From the start of `vSynchronize`, as long as no step had undefined behaviour, the threads have made at
-- most eight steps for each task and three more that are not a stop from outside, in any order, and
-- unless the main thread has ended one of them can make a step.
pub run-progress :
    (outcome : ℕ → Option ℕ) (c : ℕ) (tasks : List ℕ) (rtn : Rtn) (s0 : State) (es : List Event)
    (s : State)
    → start c tasks rtn ≡ ok s0
    → run outcome es s0 ≡ some s
    → is_defined s.main ≡ true
    → (own_steps es ≤ 8 * length tasks + 3)
      × ((has_finished s.main ≡ true)
          ⊎ ((e : Event) × (is_some (step outcome e s) ≡ true) × (is_cancel e ≡ false)))
unfolding started
run-progress outcome c tasks rtn s0 es s hs hr defined =
    let (positive, e0) = start-started c tasks rtn s0 hs in
    let threads : Threads c s =
      run-keeps outcome (Threads c) (step-Threads outcome c) es s0 s hr
        (subst (Threads c) (sym e0) (started-Threads c tasks rtn)) in
    let waiting : Waiting s =
      run-keeps outcome Waiting (step-Waiting outcome) es s0 s hr (subst Waiting (sym e0) tt) in
    (
      omega (arith, run-measure outcome es s0 s hr, ap measure e0),
      elim (Bool-cases (has_finished s.main)) [
        | inl over ↦ inl over
        | inr on ↦
            let (goes, own) = next-goes outcome c s positive threads waiting on defined in
            inr (next outcome s, goes, own)
      ],
    )
