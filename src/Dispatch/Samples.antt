-- ===== src/Dispatch/Samples.antt =====
-- The theorems on the dispatching of tasks at concrete inputs, and tests of the definitions.
use xtru.Common.{
  ◌==◌, if◌then◌else◌, length, ok, ℕ, ◌+◌, ◌*◌, ◌≤◌, ◌≡◌, refl, ◌≢◌, ◌⊎◌, true, false, Option, none,
  some, List, [], ◌∷◌, arith,
}
use xtru.Dispatch.Rtn.{fresh_rtn, or_value, break_all, add_pid, del_pid}
use xtru.Dispatch.Pool.{make_pool}
use xtru.Dispatch.Synchronize.{
  State, Event, pop_thread, spawn, assign, check, exit_loop, wait, call, push_thread, looping,
  checking, finished, step, run, start, is_some, is_defined, undefined,
}
use xtru.Dispatch.Invariant.{started}
use xtru.Dispatch.Progress.{own_steps, is_cancel, has_finished, run-progress}
use xtru.Dispatch.Lost.{late_run, check-stops, run-undefined}

or_three : (or_value 5 (record fresh_rtn { value = 6 })).value ≡ 7
unfolding or_value
or_three = refl

pids : (break_all (del_pid 4 (add_pid 3 (add_pid 4 (add_pid 3 fresh_rtn))))).1 ≡ 3 ∷ []
unfolding break_all del_pid add_pid
pids = refl

-- Task 7 fails with 70, the others do not fail.
abbrev outcome : ℕ → Option ℕ
outcome t = if t == 7 then some 70 else none

abbrev tasks : List ℕ
tasks = 5 ∷ 7 ∷ []

begin : State
begin = started 1 tasks fresh_rtn

begin_eq : start 1 tasks fresh_rtn ≡ ok begin
unfolding start begin started
begin_eq = refl

abbrev both : List Event
both =
    pop_thread
    ∷ spawn
    ∷ assign
    ∷ check
    ∷ call 0
    ∷ push_thread 0
    ∷ pop_thread
    ∷ spawn
    ∷ assign
    ∷ call 0
    ∷ check
    ∷ push_thread 0
    ∷ exit_loop
    ∷ wait
    ∷ []

end_state : State
end_state = record {
  queue = [];
  pool = record { parallelism = 1; cont = 0 ∷ [] };
  running = [];
  log = 7 ∷ 5 ∷ [];
  ep = some 70;
  unseen = false;
  rtn = record { value = 1; cont = false; pids = [] };
  main = finished (some 70);
}

both_end : run outcome both begin ≡ some end_state
unfolding run begin started make_pool end_state
both_end = refl

abbrev thrown : Option ℕ
thrown = some 70

end_defined : is_defined end_state.main ≡ true
unfolding end_state
end_defined = refl

run-progress_example :
    (own_steps both ≤ 8 * length tasks + 3)
    × ((has_finished end_state.main ≡ true)
        ⊎ ((e : Event) × (is_some (step outcome e end_state) ≡ true) × (is_cancel e ≡ false)))
run-progress_example =
    run-progress outcome 1 tasks fresh_rtn begin both end_state begin_eq both_end end_defined

abbrev failed : State
failed = record {
  queue = 5 ∷ [];
  pool = record { parallelism = 1; cont = 0 ∷ [] };
  running = [];
  log = 7 ∷ [];
  ep = some 70;
  unseen = false;
  rtn = fresh_rtn;
  main = checking;
}

abbrev stopped : State
stopped = record failed { rtn = record { value = 1; cont = false; pids = [] }; main = looping }

failed-stopped : step outcome check failed ≡ some stopped
unfolding step
failed-stopped = refl

check-stops_example : (stopped.rtn.value ≢ 0) × (step outcome pop_thread stopped ≡ none)
check-stops_example = check-stops outcome 70 failed stopped (omega arith) refl refl failed-stopped

one_started : start 1 (7 ∷ []) fresh_rtn ≡ ok (started 1 (7 ∷ []) fresh_rtn)
unfolding start started
one_started = refl

run-undefined_example :
    (s : State) × (run outcome late_run (started 1 (7 ∷ []) fresh_rtn) ≡ some s)
    × (s.main ≡ undefined)
run-undefined_example =
    run-undefined outcome 0 7 70 fresh_rtn refl refl (started 1 (7 ∷ []) fresh_rtn) one_started

-- A thread that ends before it is assigned to its object.
early_end :
    (s : State) × (run outcome (pop_thread ∷ spawn ∷ call 0 ∷ push_thread 0 ∷ []) begin ≡ some s)
    × (s.main ≡ undefined)
unfolding run begin started make_pool
early_end = (_, refl, refl)
