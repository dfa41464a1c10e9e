-- ===== src/Message/Copies.antt =====
-- Copies and assignments of messages.
use myg3log.Base.{◌≡◌, refl}
use myg3log.Message.{LogMessage}
use myg3log.Message.Build.{assign}

-- `operator=` takes over every member of the other message but two: the path of the file and the
-- function that formats the details stay those of the message assigned to.
pub assign_lem :
    (this other : LogMessage)
    → ((assign this other).entry ≡ record (other.entry) { file_path = this.file_path })
      × ((assign this other).details ≡ this.details)
unfolding assign
assign_lem this other = (refl, refl)
