-- ===== src/Message/Format.antt =====
-- What the text of a message shows.
use myg3log.Base.{
  ℕ, ◌≡◌, refl, subst, arith, Bool, true, false, ◌||◌, [], ◌∷◌, ◌++◌, append_assoc, if◌then◌else◌,
  Bool-cases, inl, inr,
}
use myg3log.Base.Int.{ℤ, eqb_ℤ}
use myg3log.Base.Text.{Text, codes, after_last-split, Lacks, IsDirPart}
use myg3log.Levels.{Level, was_fatal, fatal, contract, fatal_signal, fatal_exception}
use myg3log.Time.{Platform}
use myg3log.Message.{
  Entry, LogMessage, LogDetailsFunc, render, to_string, default_timestamp, normal_to_string,
  fatal_signal_to_string, fatal_exception_to_string, fatal_log_to_string, fatal_check_to_string,
  custom_to_string, split_file_name,
}
use myg3log.Message.Build.{create}

-- Is it the level of a signal or of an exception that the crash handler caught?
abbrev pub is_crash : Level → Bool
is_crash level = eqb_ℤ fatal_signal.value level.value || eqb_ℤ fatal_exception.value level.value

module _ (platform : Platform) (show_thread : ℕ → Text) where
  -- What the text of a message begins with.
  abbrev pub heading : LogDetailsFunc → Entry → Text
  heading f e = if is_crash e.level then default_timestamp platform show_thread e else f e

  -- The text begins with `head` and then shows `message`, whole.
  abbrev pub Shows : Text → Text → Text → Type 0
  Shows head message text =
      (middle : Text) × (after : Text) × (text ≡ head ++ (middle ++ (message ++ after)))

  fatal_signal-Shows :
      (m : LogMessage)
      → Shows
          (default_timestamp platform show_thread m.entry)
          m.message
          (fatal_signal_to_string platform show_thread m)
  unfolding fatal_signal_to_string
  fatal_signal-Shows m =
      (codes "\n\n***** FATAL SIGNAL RECEIVED ******* \n", codes "\n", simp append_assoc)

  fatal_exception-Shows :
      (m : LogMessage)
      → Shows
          (default_timestamp platform show_thread m.entry)
          m.message
          (fatal_exception_to_string platform show_thread m)
  unfolding fatal_exception_to_string
  fatal_exception-Shows m =
      (codes "\n\n***** FATAL EXCEPTION RECEIVED ******* \n", codes "\n", simp append_assoc)

  -- The four formatters that begin with the details.
  details-Shows :
      (m : LogMessage)
      → Shows (m.details m.entry) m.message (fatal_log_to_string platform show_thread m)
        × Shows (m.details m.entry) m.message (fatal_check_to_string platform show_thread m)
        × Shows (m.details m.entry) m.message (custom_to_string platform show_thread m)
        × Shows (m.details m.entry) m.message (normal_to_string platform show_thread m)
  unfolding fatal_log_to_string fatal_check_to_string custom_to_string normal_to_string
  details-Shows m = (
    (
      codes "\n\t*******\t "
          ++ codes "EXIT trigger caused by LOG(FATAL) entry: "
          ++ codes "\n\t"
          ++ codes "\"",
      codes "\"",
      simp append_assoc,
    ),
    (
      codes "\n\t*******\t "
          ++ codes "EXIT trigger caused by broken Contract:"
          ++ codes " CHECK("
          ++ m.expression
          ++ codes ")\n\t"
          ++ codes "\"",
      codes "\"",
      simp append_assoc,
    ),
    (
      codes "\t*******" ++ codes "UNKNOWN or Custom made Log Message Type" ++ codes "\n\t",
      codes "\n",
      simp append_assoc,
    ),
    ([], codes "\n", refl),
  )

  -- What `render` does at a level of the crash handler, and at any other.
  crash-Shows :
      (m : LogMessage)
      → is_crash m.level ≡ true
      → Shows
          (default_timestamp platform show_thread m.entry)
          m.message
          (render platform show_thread m)
  unfolding render was_fatal
  crash-Shows m e = elim (Bool-cases (eqb_ℤ fatal_signal.value m.level.value)) [
    | inl h ↦ subst (Shows _ m.message) (ground arith) (fatal_signal-Shows m)
    | inr h ↦ subst (Shows _ m.message) (ground arith) (fatal_exception-Shows m)
  ]

  other-Shows :
      (m : LogMessage)
      → is_crash m.level ≡ false
      → Shows (m.details m.entry) m.message (render platform show_thread m)
  unfolding render was_fatal
  other-Shows m e =
      let (log, check, custom, normal) = details-Shows m in
      elim (Bool-cases (was_fatal m.level)) [
        | inl f ↦ elim (Bool-cases (eqb_ℤ fatal.value m.level.value)) [
          | inl h ↦ subst (Shows (m.details m.entry) m.message) (ground arith) log
          | inr h ↦ elim (Bool-cases (eqb_ℤ contract.value m.level.value)) [
            | inl k ↦ subst (Shows (m.details m.entry) m.message) (ground arith) check
            | inr k ↦ subst (Shows (m.details m.entry) m.message) (ground arith) custom
          ]
        ]
        | inr f ↦ subst (Shows (m.details m.entry) m.message) (ground arith) normal
      ]

  render-Shows :
      (m : LogMessage) → Shows (heading m.details m.entry) m.message (render platform show_thread m)
  render-Shows m = elim (Bool-cases (is_crash m.level)) [
    | inl e ↦ rw e (crash-Shows m e)
    | inr e ↦ rw e (other-Shows m e)
  ]

  -- Whatever the level is, the text begins with the details, or with the time for a caught signal
  -- or exception, and shows the whole message behind it.
  pub to_string-Shows :
      (f : LogDetailsFunc) (m : LogMessage)
      → Shows (heading f m.entry) m.message (to_string platform show_thread f m).1
  unfolding to_string
  to_string-Shows f m = render-Shows (record m { details = f })

  -- A level below FATAL gives a line with the details and the message, and nothing else.
  pub to_string-normal :
      (f : LogDetailsFunc) (m : LogMessage)
      → was_fatal m.level ≡ false
      → (to_string platform show_thread f m).1 ≡ f m.entry ++ (m.message ++ codes "\n")
  unfolding to_string normal_to_string
  to_string-normal f m e = rw e

  -- Unless files keep their paths, the file of a new message is the last part of the path that it
  -- was given: the path is a directory part and the file, and the file has none of the bytes that
  -- end a directory part.
  pub create-file :
      (file : Text) (line : ℤ) (function : Text) (level : Level) (now thread : ℕ)
      → let m = create platform show_thread false file line function level now thread in
        let ends : Text = b'(' ∷ b'/' ∷ b'\\' ∷ [] in
        ((dir : Text) × (m.file_path ≡ dir ++ m.file) × IsDirPart ends dir) × Lacks ends m.file
  unfolding create split_file_name
  create-file file line function level now thread = after_last-split (b'(' ∷ b'/' ∷ b'\\' ∷ []) file
