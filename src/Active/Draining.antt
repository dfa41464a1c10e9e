-- ===== src/Active/Draining.antt =====
-- What the destructor and the wait for a task run.
use myg3log.Base.{suc, ◌≡◌, refl, ap, true, false, List, [], ◌∷◌, ◌++◌, some, map, length}
use myg3log.Active.{Active, Callback, send, perform, round, run, destroy, rounds, spawn_and_wait}
use myg3log.Active.Queue.{push, wait_and_pop}

module _ {J : Type 0} where
  -- A worker that is not being destroyed, with the given jobs in its queue.
  abbrev pub waiting : List J → Active J
  waiting js = record { mq = map Callback.call js; done = false }

  abbrev pub finished : Active J
  finished = record { mq = []; done = true }

  length-sent :
      (js : List J) (c : Callback J) → length (map Callback.call js ++ c ∷ []) ≡ suc (length js)
  length-sent [] c = refl
  length-sent (j ∷ js) c = ap suc (length-sent js c)

  pub map-sent :
      (js : List J) (j : J)
      → map Callback.call js ++ Callback.call j ∷ [] ≡ map Callback.call (js ++ j ∷ [])
  map-sent [] j = refl
  map-sent (i ∷ js) j = ap (◌∷◌ (Callback.call i)) (map-sent js j)

  length-jobs : (js : List J) → length (map Callback.call js) ≡ length js
  length-jobs [] = refl
  length-jobs (j ∷ js) = ap suc (length-jobs js)

module _ {J S : Type 0} (exec : J → S → S) where
  -- The jobs run one after the other.
  abbrev pub run_jobs : List J → S → S
  run_jobs [] s = s
  run_jobs (j ∷ js) s = run_jobs js (exec j s)

  run-last :
      (js : List J) (s : S)
      → run exec
          (suc (suc (length js)))
          (record { mq = map Callback.call js ++ Callback.set_done ∷ []; done = false }, s)
        ≡ some (finished, run_jobs js s)
  unfolding run round wait_and_pop perform
  run-last [] s = refl
  run-last (j ∷ js) s = run-last js (exec j s)

  -- The destructor of a live worker returns, and has run every job that was in the queue, in order.
  pub destroy_lem :
      (js : List J) (s : S) → destroy exec (waiting js, s) ≡ some (finished, run_jobs js s)
  unfolding destroy send push
  destroy_lem js s = rw (length-sent js Callback.set_done) (run-last js s)

  rounds-all :
      (js : List J) (s : S)
      → rounds exec (length js) (waiting js, s) ≡ some (waiting [], run_jobs js s)
  unfolding rounds round wait_and_pop perform
  rounds-all [] s = refl
  rounds-all (j ∷ js) s = rounds-all js (exec j s)

  -- The wait for a task ends, with every job that was sent before the task run, then the task,
  -- and nothing left in the queue.
  pub spawn_and_wait_lem :
      (js : List J) (j : J) (s : S)
      → spawn_and_wait exec j (waiting js, s) ≡ some (waiting [], run_jobs (js ++ j ∷ []) s)
  unfolding spawn_and_wait send push
  spawn_and_wait_lem js j s =
      rw (map-sent js j, length-jobs (js ++ j ∷ [])) (rounds-all (js ++ j ∷ []) s)

  pub run_jobs-append :
      (xs ys : List J) (s : S) → run_jobs (xs ++ ys) s ≡ run_jobs ys (run_jobs xs s)
  run_jobs-append [] ys s = refl
  run_jobs-append (x ∷ xs) ys s = run_jobs-append xs ys (exec x s)
