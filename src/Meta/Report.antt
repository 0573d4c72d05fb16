-- ===== src/Meta/Report.antt =====
-- app/xtru/getmeta: what the calls on a list promise, on the rows alone.
use xtru.Common.{if◌then◌else◌, length, ℕ, suc, Bool, Option, List, [], ◌∷◌, ◌++◌, reverse}
use xtru.Meta.Match.{Callbacks, call, call_item, test}
use xtru.Meta.Catalog.{Call, post_bulk, post_repeat, reversed, print, subtract, sort}

module _ {Row : Type 0} (p : Option (Row → Bool)) where
  unfoldable pub select : List Row → List Row
  select [] = []
  select (r ∷ rs) = if test p r then r ∷ select rs else select rs

  unfoldable pub reject : List Row → List Row
  reject [] = []
  reject (r ∷ rs) = if test p r then reject rs else r ∷ reject rs

module _ {Row World : Type 0} where
  -- The rows in turn, with their positions among the selected ones.
  unfoldable pub each : Callbacks Row World → ℕ → List Row → World → World
  each cb i [] w = w
  each cb i (r ∷ rs) w = each cb (suc i) rs (call_item cb.on_repeat r i w)

  -- The callback for nothing found; or the one before, all selected rows in order, the one behind.
  abbrev pub report_selected : Callbacks Row World → List Row → World → World
  report_selected cb [] w = call cb.not_found w
  report_selected cb (r ∷ rs) w = call cb.post_repeat (each cb 0 (r ∷ rs) (call cb.pre_repeat w))

  unfoldable pub report : Callbacks Row World → List Row → World → World
  unfolding select each
  report cb rs w = report_selected cb (select cb.key_matched rs) w

  module _ (less : Row → Row → Bool) where
    unfoldable pub promise : Call Row World → List Row × World → List Row × World
    unfolding report reject select sort
    promise (post_bulk new) (rs, w) = (rs ++ new, w)
    promise post_repeat (rs, w) = (sort less rs, w)
    promise reversed (rs, w) = (reverse rs, w)
    promise (print cb dispose) (rs, w) =
        (if dispose then reject cb.key_matched rs else rs, report cb rs w)
    promise (subtract p note) (rs, w) = (reject p rs, note (length (select p rs)) w)

    unfoldable pub promise_all : List (Call Row World) → List Row × World → List Row × World
    unfolding promise
    promise_all [] s = s
    promise_all (a ∷ calls) s = promise_all calls (promise a s)
