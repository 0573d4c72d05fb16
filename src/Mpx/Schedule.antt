-- ===== src/Mpx/Schedule.antt =====
-- app/mpx/cAppLocal.cpp: the order in which the commands of the file are run.
use xtru.Common.{
  if◌then◌else◌, Bool-cases, Bytes, codes, same, same→eq, All, All-append, starts_with, is_empty,
  ◌≡◌, refl, sym, ap, ◌∙◌, subst, ◌⊎◌, inl, inr, Bool, true, false, not, ◌||◌, List, [], ◌∷◌, ◌++◌,
  append_assoc, arith,
}
use xtru.Mpx.Lines.{Stmt}

-- What the loop does with the queue: it runs its last element at once, or it waits until all of its
-- elements were run by `vSynchronize`. (The process is not being stopped.)
pub data Action : Type 0 where
  launch : Stmt → Action
  synchronize : List Stmt → Action

-- `str_for_remarks`: a remark begins with `#` or `;`.
abbrev pub is_remark : Bytes → Bool
is_remark name = starts_with (codes "#") name || starts_with (codes ";") name

abbrev pub is_skipped : Stmt → Bool
is_skipped s = is_empty s.program || is_remark s.program

-- `i < iLineUpSize - 1 && stmts[i].first != stmts[i + 1].first`
abbrev pub changes : Stmt → List Stmt → Bool
changes s [] = false
changes s (t ∷ ss) = not (same s.program t.program)

abbrev pub ran : List Action → List Stmt
ran [] = []
ran (launch s ∷ actions) = s ∷ ran actions
ran (synchronize queue ∷ actions) = queue ++ ran actions

abbrev pub commands : List Stmt → List Stmt
commands [] = []
commands (s ∷ ss) = if is_skipped s then commands ss else s ∷ commands ss

-- `max_list` tells the names of `oMaxList_`.
module _ (max_list : Bytes → Bool) where
  -- The `for` loop and the `vSynchronize` behind it, from a queue.
  unfoldable pub schedule : List Stmt → List Stmt → List Action
  schedule queue [] = synchronize queue ∷ []
  schedule queue (s ∷ ss) = elim (is_skipped s) [
    | true ↦ schedule queue ss
    | false ↦ elim (max_list s.program) [
      | false ↦ launch s ∷ schedule queue ss
      | true ↦ elim (changes s ss) [
        | true ↦ synchronize (queue ++ s ∷ []) ∷ schedule [] ss
        | false ↦ schedule (queue ++ s ∷ []) ss
      ]
    ]
  ]

  -- The program that waits in the queue is that of the next line.
  abbrev Continues : List Stmt → List Stmt → Type 0
  Continues queue [] = (n : Bytes) × All (λ q. (q.program ≡ n) × (max_list n ≡ true)) queue
  Continues queue (s ∷ ss) =
      All (λ q. (q.program ≡ s.program) × (max_list q.program ≡ true) × (is_skipped q ≡ false))
        queue

  -- The commands of one batch have one program, which is one of the list.
  abbrev pub Batch : Action → Type 0
  Batch (launch s) = max_list s.program ≡ false
  Batch (synchronize queue) = (n : Bytes) × All (λ q. (q.program ≡ n) × (max_list n ≡ true)) queue

  batch_of :
      (queue : List Stmt) (n : Bytes)
      → All (λ q. (q.program ≡ n) × (max_list q.program ≡ true) × (is_skipped q ≡ false)) queue
      → All (λ q. (q.program ≡ n) × (max_list n ≡ true)) queue
  batch_of [] n h = tt
  batch_of (q ∷ queue) n ((e, m, _), h) = ((e, ap max_list (sym e) ∙ m), batch_of queue n h)

  renamed :
      (queue : List Stmt) (n m : Bytes)
      → n ≡ m
      → All (λ q. (q.program ≡ n) × (max_list q.program ≡ true) × (is_skipped q ≡ false)) queue
      → All (λ q. (q.program ≡ m) × (max_list q.program ≡ true) × (is_skipped q ≡ false)) queue
  renamed queue n m e h =
      subst
        (λ k.
          All (λ q. (q.program ≡ k) × (max_list q.program ≡ true) × (is_skipped q ≡ false)) queue)
        e h

  Fine : List Stmt → List Stmt → Type 0
  Fine queue ss = (ran (schedule queue ss) ≡ queue ++ commands ss) × All Batch (schedule queue ss)

  schedule-skipped :
      (queue : List Stmt) (s : Stmt) (ss : List Stmt)
      → is_skipped s ≡ true
      → schedule queue (s ∷ ss) ≡ schedule queue ss
  unfolding schedule
  schedule-skipped queue s ss h = rw (h, schedule) refl

  schedule-launch :
      (queue : List Stmt) (s : Stmt) (ss : List Stmt)
      → is_skipped s ≡ false
      → max_list s.program ≡ false
      → schedule queue (s ∷ ss) ≡ launch s ∷ schedule queue ss
  unfolding schedule
  schedule-launch queue s ss h m = rw (h, schedule, m) refl

  schedule-synchronize :
      (queue : List Stmt) (s : Stmt) (ss : List Stmt)
      → is_skipped s ≡ false
      → max_list s.program ≡ true
      → changes s ss ≡ true
      → schedule queue (s ∷ ss) ≡ synchronize (queue ++ s ∷ []) ∷ schedule [] ss
  unfolding schedule
  schedule-synchronize queue s ss h m c = rw (h, schedule, m, c) refl

  schedule-queue :
      (queue : List Stmt) (s : Stmt) (ss : List Stmt)
      → is_skipped s ≡ false
      → max_list s.program ≡ true
      → changes s ss ≡ false
      → schedule queue (s ∷ ss) ≡ schedule (queue ++ s ∷ []) ss
  unfolding schedule
  schedule-queue queue s ss h m c = rw (h, schedule, m, c) refl

  no_queue :
      (queue : List Stmt) (s : Stmt) (ss : List Stmt)
      → Continues queue (s ∷ ss)
      → (is_skipped s ≡ true) ⊎ (max_list s.program ≡ false)
      → queue ≡ []
  no_queue [] s ss h why = refl
  no_queue (q ∷ queue) s ss ((e, m, k), h) (inl why) =
      let same_name : is_skipped q ≡ is_skipped s = ap (λ n. is_empty n || is_remark n) e in
      absurd (ground (arith, same_name, why, k))
  no_queue (q ∷ queue) s ss ((e, m, k), h) (inr why) =
      let same_name : max_list q.program ≡ max_list s.program = ap max_list e in
      absurd (ground (arith, same_name, why, m))

  Continues-nil : (ss : List Stmt) → Continues [] ss
  Continues-nil [] = ([], tt)
  Continues-nil (s ∷ ss) = tt

  grown :
      (queue : List Stmt) (s : Stmt) (ss : List Stmt)
      → Continues queue (s ∷ ss)
      → is_skipped s ≡ false
      → max_list s.program ≡ true
      → All
          (λ q. (q.program ≡ s.program) × (max_list q.program ≡ true) × (is_skipped q ≡ false))
          (queue ++ s ∷ [])
  grown queue s ss h k m = All-append _ queue (s ∷ []) h ((refl, m, k), tt)

  Continues-grown :
      (queue : List Stmt) (s : Stmt) (ss : List Stmt)
      → Continues queue (s ∷ ss)
      → is_skipped s ≡ false
      → max_list s.program ≡ true
      → changes s ss ≡ false
      → Continues (queue ++ s ∷ []) ss
  Continues-grown queue s [] h k m c =
      (s.program, batch_of (queue ++ s ∷ []) s.program (grown queue s [] h k m))
  Continues-grown queue s (t ∷ ss) h k m c =
      let equal : same s.program t.program ≡ true = ground (arith, c) in
      renamed (queue ++ s ∷ []) s.program t.program (same→eq s.program t.program equal)
        (grown queue s (t ∷ ss) h k m)

  commands-kept :
      (s : Stmt) (ss : List Stmt) → is_skipped s ≡ false → commands (s ∷ ss) ≡ s ∷ commands ss
  commands-kept s ss h = rw h refl

  commands-skipped :
      (s : Stmt) (ss : List Stmt) → is_skipped s ≡ true → commands (s ∷ ss) ≡ commands ss
  commands-skipped s ss h = rw h refl

  Fine-nil : (queue : List Stmt) → Continues queue [] → Fine queue []
  unfolding schedule Fine
  Fine-nil queue h = (refl, (h, tt))

  schedule-Fine : (ss queue : List Stmt) → Continues queue ss → Fine queue ss
  unfolding Fine
  schedule-Fine [] queue h = Fine-nil queue h
  schedule-Fine (s ∷ ss) queue h = elim (Bool-cases (is_skipped s)) [
    | inl k ↦
        let (r, b) = schedule-Fine ss [] (Continues-nil ss) in
        rw (no_queue queue s ss h (inl k), schedule-skipped [] s ss k, commands-skipped s ss k)
          (r, b)
    | inr k ↦ elim (Bool-cases (max_list s.program)) [
      | inr m ↦
          let (r, b) = schedule-Fine ss [] (Continues-nil ss) in
          rw (no_queue queue s ss h (inr m), schedule-launch [] s ss k m, commands-kept s ss k)
            (ap (◌∷◌ s) r, (m, b))
      | inl m ↦ elim (Bool-cases (changes s ss)) [
        | inl c ↦
            let (r, b) = schedule-Fine ss [] (Continues-nil ss) in
            rw (schedule-synchronize queue s ss k m c, commands-kept s ss k)
              (
                ap (λ x. (queue ++ s ∷ []) ++ x) r ∙ append_assoc queue (s ∷ []) (commands ss),
                ((s.program, batch_of (queue ++ s ∷ []) s.program (grown queue s ss h k m)), b),
              )
        | inr c ↦
            let (r, b) = schedule-Fine ss (queue ++ s ∷ []) (Continues-grown queue s ss h k m c) in
            rw (schedule-queue queue s ss k m c, commands-kept s ss k)
              (r ∙ append_assoc queue (s ∷ []) (commands ss), b)
      ]
    ]
  ]

-- The commands are run in the order of the file, each once, without empty lines and remarks; those that
-- are run in one batch have one program, a name of the list, and those launched at once have another one.
pub schedule_lem :
    (max_list : Bytes → Bool) (ss : List Stmt)
    → (ran (schedule max_list [] ss) ≡ commands ss) × All (Batch max_list) (schedule max_list [] ss)
unfolding Fine
schedule_lem max_list ss = schedule-Fine max_list ss [] (Continues-nil max_list ss)
