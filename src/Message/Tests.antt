-- ===== src/Message/Tests.antt =====
-- Runs of the text of a message.
use myg3log.Base.{◌≡◌, [], ◌∷◌}
use myg3log.Base.Int.{pos}
use myg3log.Base.Text.{Text}
use myg3log.Message.{LogMessage, to_string}
use myg3log.Message.Build.{assign}
use myg3log.Message.Format.{Shows, heading, to_string-Shows}
use myg3log.Message.Copies.{assign_lem}
use myg3log.Samples.{platform, message}

abbrev details : Text
details = b'x' ∷ []

to_string-Shows_example :
    Shows platform
      (λ t. [])
      (heading platform (λ t. []) (λ e. details) message.entry)
      message.message
      (to_string platform (λ t. []) (λ e. details) message).1
to_string-Shows_example = to_string-Shows platform (λ t. []) (λ e. details) message

abbrev other_message : LogMessage
other_message = record message {
  entry = record (message.entry) { file_path = b'o' ∷ []; line = pos 7 };
}

assign_lem_example :
    ((assign message other_message).entry
      ≡ record (other_message.entry) { file_path = b'/' ∷ b'f' ∷ [] })
    × ((assign message other_message).details ≡ message.details)
assign_lem_example = assign_lem message other_message
