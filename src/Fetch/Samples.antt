-- ===== src/Fetch/Samples.antt =====
-- The theorems on the fetch loop at concrete bulks.
use xtru.Common.{
  Bytes, codes, runtime_error, ◌-◌, ◌^◌, ◌≡◌, refl, true, false, none, some, List, [], ◌∷◌, ◌++◌,
  map, arith,
}
use xtru.Fetch.Loop.{more, last, failure, Progress, Ended, post_bulk_action, execute_and_fetch}
use xtru.Fetch.Counts.{Wrote, EndsWith, execute_and_fetch-Wrote, execute_and_fetch-failure}

abbrev begin : Progress
begin = record { file = []; total_bytes = 0; total_rows = 0; feedbacks = 0 }

abbrev bulks : List (List Bytes)
bulks = (codes "a" ∷ codes "b" ∷ []) ∷ [] ∷ []

execute_and_fetch-Wrote_example :
    (r : Ended) × (execute_and_fetch true
        (codes "h")
        (some 2)
        5
        (map more bulks ++ last (codes "c" ∷ []) ∷ [])
        begin
      ≡ some r)
    × EndsWith none 3 r
    × Wrote true (codes "h") (codes "a" ∷ codes "b" ∷ codes "c" ∷ []) begin r.unloader
execute_and_fetch-Wrote_example =
    execute_and_fetch-Wrote true (codes "h") (some 2) 5 bulks (codes "c" ∷ []) begin (omega arith)
      (omega arith) (omega arith)

execute_and_fetch-failure_example :
    (r : Ended) × (execute_and_fetch false
        (codes "h")
        none
        5
        (map more bulks ++ failure runtime_error ∷ [])
        begin
      ≡ some r)
    × EndsWith (some runtime_error) 0 r
    × Wrote false (codes "h") (codes "a" ∷ codes "b" ∷ []) begin r.unloader
execute_and_fetch-failure_example =
    execute_and_fetch-failure false (codes "h") none 5 bulks runtime_error [] begin (omega arith)
      (omega arith) (omega arith)

-- The counter of the rows goes around.
abbrev many : Progress
many = record begin { total_rows = 2 ^ 32 - 1 }

gone_around : (post_bulk_action (codes "a" ∷ codes "b" ∷ []) many).total_rows ≡ 1
unfolding post_bulk_action
gone_around = refl
