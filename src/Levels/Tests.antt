-- ===== src/Levels/Tests.antt =====
-- Runs of the table of levels.
use myg3log.Base.{◌≡◌, refl, true}
use myg3log.Levels.{
  Status, log_level_defaults, find, insert, keys, set, set_highest, set_highest_loop,
  set_highest_at, get_status, log_level, info, warning, error, fatal_signal,
}
use myg3log.Levels.Laws.{highest_status, get_status-set_highest}
use myg3log.Levels.Invariant.{IsTable, Call, apply, apply-IsTable, defaults-IsTable}
use myg3log.Levels.Phantom.{set_highest_after_absent}

raise_to_warning : get_status info (set_highest warning log_level_defaults) ≡ Status.disabled
unfolding get_status set_highest set_highest_loop set_highest_at set find insert keys
    log_level_defaults
raise_to_warning = refl

get_status-set_highest_example :
    get_status error (set_highest warning log_level_defaults)
    ≡ highest_status warning error
        (get_status warning log_level_defaults)
        (get_status error log_level_defaults)
get_status-set_highest_example =
    get_status-set_highest warning error log_level_defaults defaults-IsTable.keyed

apply-IsTable_example : IsTable (apply (Call.raises warning) log_level_defaults)
apply-IsTable_example = apply-IsTable (Call.raises warning) log_level_defaults tt defaults-IsTable

set_highest_after_absent_example :
    get_status info (set_highest warning (log_level true fatal_signal log_level_defaults).1)
    ≡ Status.enabled
unfolding get_status find log_level_defaults
set_highest_after_absent_example =
    set_highest_after_absent warning fatal_signal refl (λ e. cc) refl refl
