-- ===== src/Mpx/Child.antt =====
-- app/mpx/cExtProc.cpp: the messages on a child process, and what is done when it ends. The format of the
-- elapsed seconds is a parameter.
use xtru.Common.{
  ◌==◌, if◌then◌else◌, Bool-cases, Bytes, codes, ℕ, ◌≡◌, refl, sym, ap, inl, inr, Bool, true, false,
  not, ◌&&◌, ◌||◌, Option, none, some, List, [], ◌∷◌, ◌++◌, arith,
}
use xtru.Common.Decimal.{decimal}
use xtru.Dispatch.Rtn.{Rtn, has, has-remove, remove, break_all, add_pid, del_pid}

pub record Task : Type 0 where
  pub executable : Bytes
  pub parameters : Bytes
  pub progress : Bytes
  pub is_ignorable : Bool

-- `sShowStarting`
unfoldable pub show_starting : Task → Bytes
show_starting t =
    codes "[" ++ (t.progress ++ (codes "] " ++ (t.executable ++ (codes " " ++ t.parameters))))

-- `sShowFinishing`; an exit code is not negative.
unfoldable pub show_finishing : Bytes → Task → ℕ → Rtn → Bytes
unfolding decimal
show_finishing elapsed t code r =
    let failed =
      codes "failed with rc="
      ++ (decimal code ++ (if t.is_ignorable then codes ", but ignored." else codes ".")) in
    let result =
      if code == 0
      then codes "completed." ++ (elapsed ++ codes "s elapsed.")
      else if not r.cont
      then codes "canceled."
      else failed in
    codes "[" ++ (t.progress ++ (codes "] " ++ result))

-- What the function at the exit of a child does: what it writes to both sinks and to the console, the
-- state, and the processes that are sent `SIGTERM`.
pub record Exit : Type 0 where
  pub out_text : Bytes
  pub err_text : Bytes
  pub message : Bytes
  pub rtn : Rtn
  pub killed : List ℕ

abbrev line : Bytes → Bytes
line s = s ++ 10 ∷ []

-- The function that is given to `bp::on_exit`, for the child with number `pid`.
unfoldable pub on_exit : Bytes → Bytes → Bytes → Task → ℕ → ℕ → Rtn → Exit
unfolding show_starting show_finishing del_pid break_all
on_exit elapsed out_lines err_lines t pid code r =
    let finish = show_finishing elapsed t code r in
    let r' = del_pid pid r in
    let stops = r'.cont && (not t.is_ignorable && not (code == 0)) in
    record {
      out_text = line (show_starting t) ++ (out_lines ++ line finish);
      err_text = line (show_starting t) ++ (err_lines ++ line finish);
      message = finish;
      rtn = if stops then (break_all r').0 else r';
      killed = if stops then (break_all r').1 else [];
    }

-- The start of `vRun`, for the number that the system gives to the child; `none` is a task that is not
-- started, since the process is to stop.
unfoldable pub run_child : ℕ → Rtn → Option Rtn
unfolding add_pid
run_child pid r = if r.cont then some (add_pid pid r) else none

stopped_cont : (c i z : Bool) → (c && (not i && not z)) ≡ true → false ≡ (c && (i || z))
stopped_cont c i z h = ground (arith, h)

stopped_before : (c i z : Bool) → (c && (not i && not z)) ≡ true → (c && true) ≡ true
stopped_before c i z h = ground (arith, h)

going_cont : (c i z : Bool) → (c && (not i && not z)) ≡ false → c ≡ (c && (i || z))
going_cont c i z h = ground (arith, h)

and_not : (c : Bool) → (c && not c) ≡ false
and_not true = refl
and_not false = refl

-- When a child ends, its number is no longer among the running ones and is not sent a signal; the process
-- goes on exactly if it went on before and the child succeeded or may be ignored; and if it went on
-- before and does not now, all other running children are sent a signal, and nobody else.
pub on_exit_lem :
    (elapsed out_lines err_lines : Bytes) (t : Task) (pid code : ℕ) (r : Rtn)
    → (has pid (on_exit elapsed out_lines err_lines t pid code r).rtn.pids ≡ false)
      × (has pid (on_exit elapsed out_lines err_lines t pid code r).killed ≡ false)
      × ((on_exit elapsed out_lines err_lines t pid code r).rtn.cont
          ≡ (r.cont && (t.is_ignorable || (code == 0))))
      × ((on_exit elapsed out_lines err_lines t pid code r).killed ≡ (
          if r.cont && not (on_exit elapsed out_lines err_lines t pid code r).rtn.cont
          then (del_pid pid r).pids
          else []))
unfolding on_exit break_all del_pid
on_exit_lem elapsed out_lines err_lines t pid code r =
    let gone = has-remove pid r.pids in
    let succeeded = code == 0 in
    elim (Bool-cases (r.cont && (not t.is_ignorable && not succeeded))) [
      | inl h ↦ rw h (
        gone,
        gone,
        stopped_cont r.cont t.is_ignorable succeeded h,
        ap (λ b. if b then remove pid r.pids else [])
            (sym (stopped_before r.cont t.is_ignorable succeeded h)),
      )
      | inr h ↦ rw h (
        gone,
        refl,
        going_cont r.cont t.is_ignorable succeeded h,
        ap (λ b. if b then remove pid r.pids else []) (sym (and_not r.cont)),
      )
    ]
