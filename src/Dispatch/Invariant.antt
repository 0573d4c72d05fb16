-- ===== src/Dispatch/Invariant.antt =====
-- inc/cDispatcher.h: what holds whenever `vSynchronize` was started, and when it has ended.
use xtru.Common.{ok, ℕ, ◌<◌, ◌≡◌, false, none, List, [], arith}
use xtru.Dispatch.Rtn.{Rtn}
use xtru.Dispatch.Pool.{make_pool, make_pool-full}
use xtru.Dispatch.Synchronize.{State, looping, start}
use xtru.Dispatch.Threads.{Threads}
use xtru.Dispatch.Failures.{Failures}

unfoldable pub started : ℕ → List ℕ → Rtn → State
unfolding make_pool
started c tasks rtn = record {
  queue = tasks;
  pool = make_pool c;
  running = [];
  log = [];
  ep = none;
  unseen = false;
  rtn = rtn;
  main = looping;
}

pub start-started :
    (c : ℕ) (tasks : List ℕ) (rtn : Rtn) (s : State)
    → start c tasks rtn ≡ ok s
    → (0 < c) × (s ≡ started c tasks rtn)
unfolding start started
start-started c tasks rtn s h = ground arith

pub started-Threads : (c : ℕ) (tasks : List ℕ) (rtn : Rtn) → Threads c (started c tasks rtn)
unfolding started
started-Threads c tasks rtn = ((make_pool-full c).1, omega (arith, (make_pool-full c).0), tt)
