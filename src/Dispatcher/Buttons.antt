-- ===== src/Dispatcher/Buttons.antt =====
-- internal/telegram/hitl.go (callbackText): what the data of a pressed button ask for, and the toasts.
use aegis_go.Prelude.{ℕ, String, str_eq, Option, none, some, if◌then◌else◌}
use aegis_go.Approvals.Commands.{parse_id}
use aegis_go.Rules.{Text, codes}
use aegis_go.Texts.{contains_text, text_eq, cut}

-- What a pressed button shows.
pub data Toast : Type 0 where
  processing : Toast
  approved : Toast
  denied_press : Toast
  nothing_changed : Toast

-- The callback data of a press.
pub data Press : Type 0 where
  bad_data : Text → Press
  bad_id : Text → Press
  bad_action : Text → Press
  asks : String → ℕ → Press

abbrev wanted : Text → ℕ → Press
wanted action id =
    if text_eq action (codes "apr")
    then asks "approved" id
    else if text_eq action (codes "dny")
    then asks "denied" id
    else bad_action action

abbrev press_id : Text → Text → Option ℕ → Press
press_id action digits none = bad_id digits
press_id action digits (some id) = wanted action id

abbrev press_cut : Text → Option (Text × Text) → Press
press_cut data_ none = bad_data data_
press_cut data_ (some (action, digits)) = press_id action digits (parse_id digits)

abbrev pub parse_press : Text → Press
parse_press data_ = press_cut data_ (cut 58 data_)

abbrev pub toast_of : String → Text → Toast
toast_of want outcome =
    if contains_text (codes "not pending") outcome
    then nothing_changed
    else if str_eq want "denied"
    then denied_press
    else approved
