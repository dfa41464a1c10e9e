-- ===== src/LogWorker/Tests.antt =====
-- Runs of a worker with one sink.
use myg3log.Base.{◌≡◌, refl, List, [], ◌∷◌, ◌++◌, some, map}
use myg3log.Active.Draining.{run_jobs, waiting, finished}
use myg3log.LogWorker.{Worker, save_job, perform_job, destroy_worker}
use myg3log.LogWorker.Fatal.{Has, outcome}
use myg3log.LogWorker.Lifetime.{destroy_worker_lem, orphan_notes}
use myg3log.Message.{LogMessage}
use myg3log.Samples.{environment, message, Kept, sink, worker}

worker-Has : Has (sink ∷ []) [] worker
worker-Has = record { sinks = refl; closed_before = refl; running = refl }

abbrev messages : List LogMessage
messages = message ∷ message ∷ []

destroy_worker_lem_example :
    (w' : Worker Kept) × (destroy_worker environment
        (map save_job (message ∷ []))
        (waiting (map save_job messages), worker)
      ≡ some (finished, w'))
    × (w'.sinks ≡ [])
    × (w'.closed ≡ [] ++ map (outcome messages) (sink ∷ []))
    × (w'.stderr
        ≡ orphan_notes environment
            (message ∷ [])
            (run_jobs (perform_job environment) (map save_job messages) worker).stderr)
destroy_worker_lem_example =
    destroy_worker_lem environment messages (message ∷ []) (sink ∷ []) [] worker worker-Has
