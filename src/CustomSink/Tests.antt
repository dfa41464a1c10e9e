-- ===== src/CustomSink/Tests.antt =====
-- Runs of the set-up by flags.
use myg3log.Base.{◌≡◌, ◌⊎◌, refl, false, List, [], ◌∷◌, ◌++◌, none, some, map, Pointwise}
use myg3log.Base.Text.{Text}
use myg3log.FileName.{prefix_sanity_fix}
use myg3log.FileSink.{FileSink}
use myg3log.Base.Int.{pos}
use myg3log.Levels.{error, warning, info}
use myg3log.Sink.{Sink}
use myg3log.Sink.Delivery.{live}
use myg3log.LogWorker.{Worker}
use myg3log.Logger.{Logger}
use myg3log.CustomSink.{Flags, init_g3_logging, init_threshold}
use myg3log.CustomSink.Setup.{init_g3_logging_lem, Made}
use myg3log.Samples.{build, logger, worker, sink, Kept}

abbrev flags : Flags
flags = record {
  stderrthreshold = pos 1;
  logtostderr = false;
  alsologtostderr = false;
  log_dir = b'd' ∷ [];
  log_link = [];
}

abbrev sink_of : FileSink → Sink Kept
sink_of s = live sink

abbrev prefix : Text
prefix = b'p' ∷ []

init_g3_logging_lem_example :
    ((flags.logtostderr ≡ false)
      × (prefix_sanity_fix prefix ≡ [])
      × (init_g3_logging build flags (live sink) sink_of 5 prefix 4 worker logger ≡ some none))
    ⊎ ((worker' : Worker Kept) × (s' : Logger Kept) × (files : List FileSink) × (init_g3_logging
            build flags
            (live sink)
            sink_of
            5
            prefix
            4
            worker
            logger
          ≡ some (some (init_threshold flags, worker', s')))
        × Pointwise
            (Made build flags (live sink) sink_of 5 prefix)
            (error ∷ warning ∷ info ∷ [])
            files
        × (worker'.sinks ≡ worker.sinks ++ live sink ∷ map sink_of files)
        × (s'.logger_instance ≡ some 4)
        × (s'.control ≡ logger.control))
init_g3_logging_lem_example =
    init_g3_logging_lem build flags (live sink) sink_of 5 prefix 4 worker logger refl refl refl
