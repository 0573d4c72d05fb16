-- ===== src/Dispatch/Synchronize.antt =====
-- inc/cDispatcher.h: `vSynchronize` and the threads that run `cDispatcher::vRun`, in interleaved steps.
-- Tasks, threads and exceptions are numbers.
use xtru.Common.{
  ltb, ◌==◌, if◌then◌else◌, Result, guard, ◌>>◌, runtime_error, ok, is_empty, ℕ, zero, suc, Bool,
  true, false, not, ◌&&◌, ◌||◌, Option, none, some, List, [], ◌∷◌,
}
use mathlib.Core.Option
use xtru.Dispatch.Rtn.{Rtn, or_value, break_all}
use xtru.Dispatch.Pool.{Pool, push, pop, make_pool, synchronized}

-- Where the main thread stands: at the head of its loop, after `oPop`, after the start of a thread and
-- before the assignment to `*oThr`, before it looks at the exception, in the scope exit with what it
-- throws, and behind it. `undefined` is behind a step whose behaviour is undefined; what stands in the
-- state from there on means nothing.
pub data Main : Type 0 where
  looping : Main
  holding assigning : ℕ → Main
  checking : Main
  leaving finished : Option ℕ → Main
  undefined : Main

-- Where a thread of the pool stands in `vRun`: before the call of the task, and before `vPush`.
pub data Phase : Type 0 where
  calling : ℕ → Phase
  returning : Phase

-- Two fields are not a part of the program: `log` has the tasks whose call is over, the last one first,
-- and `unseen` tells that an exception was stored since the main thread held `mtx` the last time.
pub record State : Type 0 where
  pub queue : List ℕ
  pub pool : Pool
  pub running : List (ℕ × Phase)
  pub log : List ℕ
  pub ep : Option ℕ
  pub unseen : Bool
  pub rtn : Rtn
  pub main : Main

pub data Event : Type 0 where
  pop_thread spawn assign check exit_loop wait cancel : Event
  call push_thread : ℕ → Event

-- The call of worker `i`: its task, and the workers after it.
abbrev pub call_at : ℕ → List (ℕ × Phase) → Option (ℕ × List (ℕ × Phase))
call_at i [] = none
call_at zero ((th, calling t) ∷ ws) = some (t, (th, returning) ∷ ws)
call_at zero ((th, returning) ∷ ws) = none
call_at (suc i) (w ∷ ws) = Option.map (λ r. (r.0, w ∷ r.1)) (call_at i ws)

-- The end of worker `i`: its thread, and the other workers.
abbrev pub leave_at : ℕ → List (ℕ × Phase) → Option (ℕ × List (ℕ × Phase))
leave_at i [] = none
leave_at zero ((th, calling t) ∷ ws) = none
leave_at zero ((th, returning) ∷ ws) = some (th, ws)
leave_at (suc i) (w ∷ ws) = Option.map (λ r. (r.0, w ∷ r.1)) (leave_at i ws)

abbrev pub is_some {ℓ} : {A : Type ℓ} → Option A → Bool
is_some none = false
is_some (some a) = true

-- `ep` and `mtx` are declared behind the scope exit and are destroyed before it waits.
abbrev pub has_left : Main → Bool
has_left (leaving e) = true
has_left (finished e) = true
has_left looping = false
has_left (holding th) = false
has_left (assigning th) = false
has_left checking = false
has_left undefined = false

abbrev pub is_defined : Main → Bool
is_defined undefined = false
is_defined looping = true
is_defined (holding th) = true
is_defined (assigning th) = true
is_defined checking = true
is_defined (leaving e) = true
is_defined (finished e) = true

-- The main thread behind the call of a task: `catch` locks `mtx`, which must be there still.
abbrev pub main_after : Option ℕ → Main → Main
main_after none m = m
main_after (some x) m = if has_left m then undefined else m

-- The main thread behind `joinable` and `detach` of the thread `th`: they race with the assignment to it.
abbrev pub main_beside : ℕ → Main → Main
main_beside th (assigning a) = if th == a then undefined else assigning a
main_beside th looping = looping
main_beside th (holding a) = holding a
main_beside th checking = checking
main_beside th (leaving e) = leaving e
main_beside th (finished e) = finished e
main_beside th undefined = undefined

-- The exception kept when another one is caught.
abbrev pub keep_first : Option ℕ → Option ℕ → Option ℕ
keep_first none caught = caught
keep_first (some e) caught = some e

-- `outcome t` is what the call of task `t` throws.
module _ (outcome : ℕ → Option ℕ) where
  -- One step of one thread; `none` where that thread cannot make it.
  unfoldable pub step : Event → State → Option State
  unfolding push pop synchronized or_value break_all
  step pop_thread s = elim s.main [
    | looping ↦
        if not (is_empty s.queue) && s.rtn.cont
        then Option.map (λ r. record s { pool = r.1; main = holding r.0 }) (pop s.pool)
        else none
    | _ ↦ none
  ]
  step spawn s = elim s.main [
    | holding th ↦ elim s.queue [
      | [] ↦ none
      | t ∷ ts ↦
          some (record s { queue = ts; running = (th, calling t) ∷ s.running; main = assigning th })
    ]
    | _ ↦ none
  ]
  step assign s = elim s.main [ assigning th ↦ some (record s { main = checking }) | _ ↦ none ]
  step check s = elim s.main [
    | checking ↦ some (record s {
      rtn = if is_some s.ep then or_value 1 s.rtn else s.rtn;
      unseen = false;
      main = looping;
    })
    | _ ↦ none
  ]
  step exit_loop s = elim s.main [
    | looping ↦
        if not (is_empty s.queue) && s.rtn.cont
        then none
        else some (record s { main = if s.unseen then undefined else leaving s.ep })
    | _ ↦ none
  ]
  step wait s = elim s.main [
    | leaving e ↦ if synchronized s.pool then some (record s { main = finished e }) else none
    | _ ↦ none
  ]
  step cancel s = some (record s { rtn = (break_all s.rtn).0 })
  step (call i) s =
      Option.map
        (λ r. record s {
          running = r.1;
          log = r.0 ∷ s.log;
          ep = keep_first s.ep (outcome r.0);
          unseen = s.unseen || (is_some (outcome r.0) && not (is_some s.ep));
          main = main_after (outcome r.0) s.main;
        })
        (call_at i s.running)
  step (push_thread i) s =
      Option.map
        (λ r. record s { running = r.1; pool = push r.0 s.pool; main = main_beside r.0 s.main })
        (leave_at i s.running)

  -- The steps in order; `none` where one of them cannot be made.
  unfoldable pub run : List Event → State → Option State
  unfolding step
  run [] s = some s
  run (e ∷ es) s = elim (step e s) [ none ↦ none | some s' ↦ run es s' ]

-- `vSynchronize` up to its loop.
unfoldable pub start : ℕ → List ℕ → Rtn → Result State
unfolding make_pool
start concurrency tasks rtn =
    guard (ltb 0 concurrency) runtime_error
    >> ok (record {
      queue = tasks;
      pool = make_pool concurrency;
      running = [];
      log = [];
      ep = none;
      unseen = false;
      rtn = rtn;
      main = looping;
    })
