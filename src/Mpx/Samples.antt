-- ===== src/Mpx/Samples.antt =====
-- The theorems on command files at concrete lines, and tests of the definitions.
use xtru.Common.{
  ◌==◌, if◌then◌else◌, Bytes, codes, same, All, fault, err, ok, ◌≡◌, refl, Bool, true, false, not,
  ◌&&◌, ◌||◌, none, some, List, [], ◌∷◌, arith,
}
use xtru.Mpx.Lines.{Table, Stmt, expand_loop, expand_line, split_line}
use xtru.Mpx.Child.{Task, on_exit, on_exit_lem, show_finishing, run_child}
use xtru.Dispatch.Rtn.{Rtn, has, del_pid}
use xtru.Mpx.Expand.{Slot, Expands, expand_loop-fill}
use xtru.Mpx.Schedule.{launch, synchronize, schedule, ran, commands, Batch, schedule_lem}

abbrev table : Table
table key =
    if same key (codes "$1")
    then some (codes "scott")
    else if same key (codes "$HOME")
    then some (codes "/u")
    else none

abbrev slots : List Slot
slots =
    record { name = codes "1"; value = codes "scott"; after = codes "/" }
    ∷ record { name = codes "home"; value = codes "/u"; after = [] }
    ∷ []

slots-Expands : Expands table slots
slots-Expands = (
  (omega arith, (refl, tt)),
  refl,
  (refl, tt),
  omega arith,
  refl,
  ((omega arith, (refl, (refl, (refl, (refl, tt))))), tt, tt, tt, refl, tt),
)

expand_loop-fill_example :
    expand_loop table 14 (codes "xtru $1/$home") 0 ≡ some (ok (codes "xtru scott//u"))
expand_loop-fill_example =
    expand_loop-fill table (codes "xtru ") slots (refl, (refl, (refl, (refl, (refl, tt)))))
      slots-Expands

-- A place-holder that follows a replaced one at once is not replaced.
adjacent : expand_line table (codes " $1$1 ") ≡ some (ok (codes "scott$1"))
unfolding expand_line
adjacent = refl

unknown : expand_line table (codes "$2") ≡ some (err fault)
unfolding expand_line
unknown = refl

abbrev xtru_stmt : Stmt
xtru_stmt = record { program = codes "xtru"; arguments = codes "a" }

abbrev echo_stmt : Stmt
echo_stmt = record { program = codes "echo"; arguments = codes "b" }

abbrev remark : Stmt
remark = record { program = codes "#"; arguments = [] }

abbrev max_list : Bytes → Bool
max_list name = same name (codes "xtru")

split : split_line (codes "xtru a") ≡ xtru_stmt
unfolding split_line
split = refl

in_batches :
    schedule max_list [] (xtru_stmt ∷ xtru_stmt ∷ remark ∷ echo_stmt ∷ [])
    ≡ synchronize (xtru_stmt ∷ xtru_stmt ∷ []) ∷ launch echo_stmt ∷ synchronize [] ∷ []
unfolding schedule
in_batches = refl

schedule_lem_example :
    (ran (schedule max_list [] (xtru_stmt ∷ remark ∷ echo_stmt ∷ []))
      ≡ commands (xtru_stmt ∷ remark ∷ echo_stmt ∷ []))
    × All (Batch max_list) (schedule max_list [] (xtru_stmt ∷ remark ∷ echo_stmt ∷ []))
schedule_lem_example = schedule_lem max_list (xtru_stmt ∷ remark ∷ echo_stmt ∷ [])

abbrev job : Task
job = record {
  executable = codes "xtru";
  parameters = codes "a";
  progress = codes "1/2";
  is_ignorable = false;
}

abbrev two_children : Rtn
two_children = record { value = 0; cont = true; pids = 7 ∷ 8 ∷ [] }

on_exit_lem_example :
    (has 7 (on_exit (codes "1") [] [] job 7 2 two_children).rtn.pids ≡ false)
    × (has 7 (on_exit (codes "1") [] [] job 7 2 two_children).killed ≡ false)
    × ((on_exit (codes "1") [] [] job 7 2 two_children).rtn.cont
        ≡ (two_children.cont && (job.is_ignorable || (2 == 0))))
    × ((on_exit (codes "1") [] [] job 7 2 two_children).killed ≡ (
        if two_children.cont && not (on_exit (codes "1") [] [] job 7 2 two_children).rtn.cont
        then (del_pid 7 two_children).pids
        else []))
on_exit_lem_example = on_exit_lem (codes "1") [] [] job 7 2 two_children

failing_child : (on_exit (codes "1") [] [] job 7 2 two_children).killed ≡ 8 ∷ []
unfolding on_exit
failing_child = refl

finish_text : show_finishing (codes "1") job 2 two_children ≡ codes "[1/2] failed with rc=2."
unfolding show_finishing
finish_text = refl

not_started : run_child 9 (record two_children { cont = false }) ≡ none
unfolding run_child
not_started = refl
