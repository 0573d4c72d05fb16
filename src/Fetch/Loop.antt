-- ===== src/Fetch/Loop.antt =====
-- lib/sql/occi/cStmt.cpp: `cStmt::iFetch`, and lib/sql/occi/cUnloader.cpp: an unloader of one statement.
-- A row is given by the bytes that it adds to the data file.
use xtru.Common.{
  ltb, leb, if◌then◌else◌, Bytes, length, concat, Error, Result, err, ok, ℕ, zero, suc, ◌+◌, ◌%◌,
  ◌^◌, Bool, false, Option, none, some, List, [], ◌∷◌, ◌++◌,
}
use mathlib.Core.Option

-- What a call of `iStmtFetch2` brings: rows, with `OCI_NO_DATA` or without, or an exception.
pub data Bulk : Type 0 where
  more last : List Bytes → Bulk
  failure : Error → Bulk

-- The members that the loop changes, and what it does to the unloader: `total_bytes` is the 64 bits of
-- `iTotalBytes_`, `total_rows` is `iTotalRows_`, and `feedbacks` counts the calls of `vFeedbackAction`.
pub record Progress : Type 0 where
  pub file : Bytes
  pub total_bytes : ℕ
  pub total_rows : ℕ
  pub feedbacks : ℕ

-- `vAddOutputBytes` and `vAddOutputRows`, which wrap around, of what is written.
unfoldable pub add_output : Bytes → ℕ → Progress → Progress
add_output text rows p = record p {
  file = p.file ++ text;
  total_bytes = (p.total_bytes + length text) % 2 ^ 64;
  total_rows = (p.total_rows + rows) % 2 ^ 32;
}

-- `vPutRowsToDataFile` and `vAddOutputRows` of `vPostBulkAction`.
unfoldable pub post_bulk_action : List Bytes → Progress → Progress
unfolding add_output
post_bulk_action rows = add_output (concat rows) (length rows)

-- `vPreRepeatAction`: the header, where column names are embedded, counts as a row.
unfoldable pub pre_repeat_action : Bool → Bytes → Progress → Progress
unfolding add_output
pre_repeat_action embed header p = if embed then add_output header 1 p else p

-- `iTotalRows`, an `unsigned long`, and `iNextFeedback`, a `ub4`.
pub record Counter : Type 0 where
  pub rows : ℕ
  pub next_feedback : ℕ

-- `iFeedBack_ * iBulkSize_` in 32 bits, or `none` when `iFeedBack_` is not positive.
abbrev pub Interval : Type 0
Interval = Option ℕ

abbrev pub feedback_due : Interval → ℕ → ℕ → Bool
feedback_due none next total = false
feedback_due (some interval) next total = leb next total

abbrev pub next_after : Interval → ℕ → ℕ
next_after none total = 0
next_after (some interval) total = (interval + total) % 2 ^ 32

-- The body of the loop after `iStmtFetch2`, for the new rows.
unfoldable pub after_fetch : Interval → List Bytes → Counter × Progress → Counter × Progress
unfolding post_bulk_action
after_fetch interval [] (c, p) = (c, p)
after_fetch interval (r ∷ rs) (c, p) =
    let p' = post_bulk_action (r ∷ rs) p in
    let total = (c.rows + length (r ∷ rs)) % 2 ^ 64 in
    if feedback_due interval c.next_feedback total
    then (
      record { rows = total; next_feedback = next_after interval total },
      record p' { feedbacks = p'.feedbacks + 1 },
    )
    else (record c { rows = total }, p')

-- The `while` loop over what OCI brings; `stop_after` rounds later the process is to stop. The loop ends
-- with the rows counted, or with an exception; where OCI brings nothing, the call does not return.
unfoldable pub fetch_loop :
    Interval → ℕ → List Bulk → Counter × Progress → Option (Result ℕ × Progress)
unfolding after_fetch
fetch_loop interval zero bulks (c, p) = some (ok c.rows, p)
fetch_loop interval (suc n) [] s = none
fetch_loop interval (suc n) (failure e ∷ bulks) (c, p) = some (err e, p)
fetch_loop interval (suc n) (last rows ∷ bulks) s =
    let r = after_fetch interval rows s in some (ok r.0.rows, r.1)
fetch_loop interval (suc n) (more rows ∷ bulks) s =
    fetch_loop interval n bulks (after_fetch interval rows s)

-- The return, as a `uint32_t`, and the function `catch` block: the first exception is kept, and no rows
-- are reported.
unfoldable pub catch_all : Result ℕ → Option Error → ℕ × Option Error
catch_all (ok n) ep = (n % 2 ^ 32, ep)
catch_all (err e) none = (0, some e)
catch_all (err e) (some first) = (0, some first)

-- `iFetch`
unfoldable pub fetch :
    Interval → ℕ → List Bulk → Progress → Option Error → Option (ℕ × Option Error × Progress)
unfolding fetch_loop catch_all
fetch interval stop_after bulks p ep =
    Option.map (λ r. let (n, e) = catch_all r.0 ep in (n, e, r.1))
      (fetch_loop interval stop_after bulks
        (record { rows = 0; next_feedback = next_after interval 0 }, p))

-- How `vExecuteAndFetch` ends, which returns nothing: what it throws, `iNumRows_` of the statement,
-- whether `vPostRepeatAction` was called or else `vNotFoundAction`, and the unloader.
pub record Ended : Type 0 where
  pub thrown : Option Error
  pub num_rows : ℕ
  pub post_repeat : Bool
  pub unloader : Progress

-- `vExecuteAndFetch` of an unloader with one statement: the header, the rows, and the rethrow.
unfoldable pub execute_and_fetch : Bool → Bytes → Interval → ℕ → List Bulk → Progress → Option Ended
unfolding pre_repeat_action fetch
execute_and_fetch embed header interval stop_after bulks p =
    Option.map
      (λ r. record { thrown = r.1; num_rows = r.0; post_repeat = ltb 0 r.0; unloader = r.2 })
      (fetch interval stop_after bulks (pre_repeat_action embed header p) none)
