-- ===== src/Crash/Stack/Tests.antt =====
-- Runs of the lines of a backtrace.
use myg3log.Base.{◌≡◌, refl, [], ◌∷◌, some}
use myg3log.Crash.Stack.{parse_frame}
use myg3log.Crash.Stack.Frames.{line_of, frame, parse_frame_lem}

-- The line `a(f+0) [1]`.
parse_frame_lem_example :
    parse_frame (line_of (b'a' ∷ []) (b'f' ∷ []) (b'0' ∷ []) (b' ' ∷ b'[' ∷ b'1' ∷ b']' ∷ []))
    ≡ some (
        frame
          (b'a' ∷ [])
          (b'f' ∷ [])
          (b'0' ∷ [])
          (b' ' ∷ b'[' ∷ b'1' ∷ b']' ∷ [])
          (refl, tt)
          (refl, tt)
          (refl, tt))
parse_frame_lem_example =
    parse_frame_lem (b'a' ∷ []) (b'f' ∷ []) (b'0' ∷ []) (b' ' ∷ b'[' ∷ b'1' ∷ b']' ∷ []) (refl, tt)
      (refl, tt) (refl, tt)
