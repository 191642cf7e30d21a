-- ===== src/Meta/Runs/Origin.antt =====
-- What any sequence of statements on the queue does to a run.
use msq_lms.Base.{◌≡◌, List, Memᴰ, true}
use msq_lms.Meta.{PullRun}
use msq_lms.Meta.Runs.{is_live}
use msq_lms.Meta.Runs.Moves.{Origin, Remains, Moves}

-- What one statement does: each run afterwards is a run from before that has made at most one move
-- of the status machine, or a new one that waits; and no live run is deleted.
pub record OneMove (rs after : List PullRun) : Type 0 where
  pub origin : (s : PullRun) → Memᴰ s after → Origin rs s
  pub spared : (r : PullRun) → Memᴰ r rs → is_live r.status ≡ true → Remains after r
