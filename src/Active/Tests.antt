-- ===== src/Active/Tests.antt =====
-- Runs of a worker that adds up the numbers it is sent.
use myg3log.Base.{ℕ, ◌+◌, refl, false, [], ◌∷◌}
use myg3log.Active.{Active, Callback, create_active, send, perform}
use myg3log.Active.Queue.{push, wait_and_pop}
use myg3log.Active.Order.{History, created, sends, runs}

abbrev add : ℕ → ℕ → ℕ
add j s = j + s

abbrev after_first : Active ℕ
after_first = record { mq = Callback.call 5 ∷ []; done = false }

-- Two jobs are sent and the first is run.
history :
    History add 0 (Callback.call 3 ∷ Callback.call 5 ∷ []) (Callback.call 3 ∷ []) (after_first, 3)
unfolding send push create_active wait_and_pop perform
history =
    runs (sends (sends created (Callback.call 3)) (Callback.call 5)) refl (Callback.call 3)
      (Callback.call 5 ∷ []) refl
