-- ===== src/Dispatch/Lost.antt =====
-- inc/cDispatcher.h: when the failure of a task stops `vSynchronize`, and how a late one is undefined.
use xtru.Common.{
  ok, ℕ, suc, ◌^◌, ◌<◌, ◌≡◌, refl, sym, ap, ◌∙◌, subst, ◌≢◌, inr, true, false, Option, none, some,
  List, [], ◌∷◌, arith,
}
use xtru.Dispatch.Rtn.{Rtn, or_value, or_value-stops}
use xtru.Dispatch.Pool.{push, pop, make_pool, fill}
use xtru.Dispatch.Invariant.{started, start-started}
use xtru.Dispatch.Synchronize.{
  State, Event, pop_thread, spawn, assign, check, exit_loop, call, looping, checking, undefined,
  returning, step, run, start,
}

after_check : State → State
after_check s = record s { rtn = or_value 1 s.rtn; unseen = false; main = looping }

step-check :
    (outcome : ℕ → Option ℕ) (x : ℕ) (s : State)
    → s.main ≡ checking
    → s.ep ≡ some x
    → step outcome check s ≡ some (after_check s)
unfolding step after_check
step-check outcome x s hm he = rw (hm, he) refl

stopped-pop :
    (outcome : ℕ → Option ℕ) (s : State) → s.rtn.cont ≡ false → step outcome pop_thread s ≡ none
unfolding step
stopped-pop outcome s h = ground arith

-- When the main thread looks at the exception and there is one, its step leaves a state with an exit value
-- of 32 bits that is not zero, in which no further task is taken.
pub check-stops :
    (outcome : ℕ → Option ℕ) (x : ℕ) (s s' : State)
    → s.rtn.value < 2 ^ 32
    → s.main ≡ checking
    → s.ep ≡ some x
    → step outcome check s ≡ some s'
    → (s'.rtn.value ≢ 0) × (step outcome pop_thread s' ≡ none)
unfolding after_check
check-stops outcome x s s' hv hm he h =
    let stops = or_value-stops 1 s.rtn hv (omega arith) (inr (λ e. absurd (omega arith))) in
    let same_state : s' ≡ after_check s = ground (arith, h, step-check outcome x s hm he) in
    subst (λ q. (q.rtn.value ≢ 0) × (step outcome pop_thread q ≡ none)) (sym same_state)
      (stops.0, stopped-pop outcome (after_check s) stops.1)

abbrev pub late_run : List Event
late_run = pop_thread ∷ spawn ∷ assign ∷ check ∷ exit_loop ∷ call 0 ∷ []

late_end : ℕ → ℕ → ℕ → Rtn → State
late_end c t x rtn = record {
  queue = [];
  pool = fill c (record { parallelism = suc c; cont = [] });
  running = (c, returning) ∷ [];
  log = t ∷ [];
  ep = some x;
  unseen = true;
  rtn = rtn;
  main = undefined;
}

-- The step in which a call fails behind the scope of `mtx`.
late_failure :
    (outcome : ℕ → Option ℕ) (c t x : ℕ) (rtn : Rtn)
    → outcome t ≡ some x
    → rtn.cont ≡ true
    → (s : State) × (run outcome late_run (started (suc c) (t ∷ []) rtn) ≡ some s)
      × (s.main ≡ undefined)
unfolding run step started late_end make_pool fill push pop
late_failure outcome c t x rtn ho hc = (late_end c t x rtn, rw (hc, ho) refl, refl)

-- With any number of threads and one task that fails, while the process is to go on, the steps in which
-- the main thread leaves its loop before the task fails are possible, and in them the behaviour is
-- undefined.
pub run-undefined :
    (outcome : ℕ → Option ℕ) (c t x : ℕ) (rtn : Rtn)
    → outcome t ≡ some x
    → rtn.cont ≡ true
    → (s0 : State) → start (suc c) (t ∷ []) rtn ≡ ok s0
    → (s : State) × (run outcome late_run s0 ≡ some s) × (s.main ≡ undefined)
run-undefined outcome c t x rtn ho hc s0 hs =
    let (_, e0) = start-started (suc c) (t ∷ []) rtn s0 hs in
    let (s, reached, over) = late_failure outcome c t x rtn ho hc in
    (s, ap (run outcome late_run) e0 ∙ reached, over)
