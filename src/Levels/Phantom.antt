-- ===== src/Levels/Phantom.antt =====
-- What a query of an absent level does to later calls.
use myg3log.Base.{◌≡◌, ◌≢◌, true, arith}
use myg3log.Base.Int.{ltb_ℤ, leb_ℤ}
use myg3log.Levels.{
  Level, find, insert, set, set_highest_at, set_highest_loop, set_highest, keys, get_status, Status,
  log_level, log_level_defaults, info,
}

-- In the table of the defaults, a query of an absent level `l` breaks every later
-- `setHighest(from)` for a registered `from` above INFO and not above `l`: INFO is left enabled,
-- although it lies below `from`.
pub set_highest_after_absent :
    (from l : Level)
    → get_status l log_level_defaults ≡ Status.absent
    → get_status from log_level_defaults ≢ Status.absent
    → ltb_ℤ info.value from.value ≡ true
    → leb_ℤ from.value l.value ≡ true
    → get_status info (set_highest from (log_level true l log_level_defaults).1) ≡ Status.enabled
unfolding log_level_defaults log_level set_highest set_highest_loop set_highest_at set find insert
    keys get_status
set_highest_after_absent from l a r above below = ground arith
