-- ===== src/Active.antt =====
-- src/g3log/shared_queue.hpp, active.hpp and future.hpp: a queue of jobs and the thread that runs
-- them. A job is a value of a type `J`, and `exec` is what running it does to the owner's state.
pub mod Queue
pub mod Order
pub mod Draining
pub mod Tests
use Queue.{push, wait_and_pop}
use myg3log.Base.{
  ℕ, zero, suc, ◌+◌, Bool, true, false, List, [], ◌∷◌, ◌++◌, Option, none, some, if◌then◌else◌,
  length,
}
use myg3log.Base.Text.{Text, codes}

-- What stands in the queue: a job, or the callback of the destructor that sets `done_`.
pub data Callback (J : Type 0) : Type 0 where
  call : J → Callback J
  set_done : Callback J

-- `class Active`.
pub record Active (J : Type 0) : Type 0 where
  pub mq : List (Callback J)
  pub done : Bool

-- `createActive()`.
unfoldable pub create_active : {J : Type 0} → Active J
create_active = record { mq = []; done = false }

-- `send(msg)`.
unfoldable pub send : {J : Type 0} → Callback J → Active J → Active J
unfolding push
send c a = record a { mq = push c a.mq }

-- A future: its result is there, is still to come, or is an exception.
pub data Future (R : Type 0) : Type 0 where
  ready : R → Future R
  pending : Future R
  exception : Text → Future R

-- `spawn_task(func, worker)`: the worker with the task in its queue, and the future.
unfoldable pub spawn_task : {J R : Type 0} → J → Option (Active J) → Option (Active J) × Future R
unfolding send
spawn_task func none = (none, Future.exception (codes "nullptr instantiated worker"))
spawn_task func (some worker) = (some (send (Callback.call func) worker), Future.pending)

module _ {J S : Type 0} (exec : J → S → S) where
  -- `func()`.
  unfoldable pub perform : Callback J → Active J × S → Active J × S
  perform (Callback.call j) (a, s) = (a, exec j s)
  perform Callback.set_done (a, s) = (record a { done = true }, s)

  -- One round of `run()`: it takes a callback and calls it; `none` while the queue is empty, where
  -- the thread waits.
  unfoldable pub round : Active J × S → Option (Active J × S)
  unfolding perform
  round (a, s) = elim (wait_and_pop a.mq) [
    | none ↦ none
    | some (func, rest) ↦ some (perform func (record a { mq = rest }, s))
  ]

  -- `while (!done_)` with fuel; `none` means that the fuel ran out or that the thread waits for a
  -- callback.
  unfoldable pub run : ℕ → Active J × S → Option (Active J × S)
  run zero (a, s) = none
  run (suc fuel) (a, s) =
      let more : Option (Active J × S) = elim (round (a, s)) [
        | none ↦ none
        | some next ↦ run fuel next
      ] in
      if a.done then some (a, s) else more

  -- The destructor: it sends the last callback and joins the thread.
  unfoldable pub destroy : Active J × S → Option (Active J × S)
  unfolding send
  destroy (a, s) = let sent = send Callback.set_done a in run (suc (length sent.mq)) (sent, s)

  -- The wait for a future of a task: the thread runs what stands in the queue up to the task.
  unfoldable pub rounds : ℕ → Active J × S → Option (Active J × S)
  rounds zero now = some now
  rounds (suc n) now = elim (round now) [ none ↦ none | some next ↦ rounds n next ]

  unfoldable pub spawn_and_wait : J → Active J × S → Option (Active J × S)
  unfolding send
  spawn_and_wait j (a, s) = let sent = send (Callback.call j) a in rounds (length sent.mq) (sent, s)
