-- ===== src/Dispatcher.antt =====
-- internal/telegram/dispatcher.go (Process): from one row of the inbox to its reply. `S` is the state
-- behind the commands, and `perform` computes what one of them answers there; both the text and the
-- change come before the claim, as the arguments of claimAndSend do.
pub mod Buttons
pub mod Reply
pub mod Throttle
pub mod Laws
use aegis_go.Prelude.{
  ℕ, ◌+◌, Bool, true, false, not, ◌&&◌, ◌||◌, String, str_eq, List, [], ◌∷◌, ◌++◌, Option, none,
  some, any, if◌then◌else◌, ◌==◌,
}
use aegis_go.Prelude.Result.{Result, ok, err}
use aegis_go.Rules.{Text, codes, trim_space}
use aegis_go.Texts.{contains_text, has_prefix, text_eq, trim_prefix, cut, empty, split_text, arrow}
use aegis_go.Inbox.{ChatId, InboxRow, Inbox, InboxError, claim_reply, fail_and_reopen, mark_status}
use aegis_go.Engine.{RunResult}
use Buttons.{Toast, processing, Press, bad_data, bad_id, bad_action, asks, parse_press, toast_of}
use Reply.{format_reply, ellipsis}

-- What a command computes.
pub data Request : Type 0 where
  decide_press : String → ℕ → Request
  stats : Text → Request
  rules_export : Request
  every : Text → Request
  cancel_job : Text → Request
  help : Request
  rules : Request
  approvals : Request
  status : Request
  history : Request
  health : Request
  jobs : Request
  scheduled : Request
  unschedule : Text → Request
  not_wired : String → Request
  log_analysis : Text → Request
  watch : Text → Request
  decide_oldest : String → Request
  decide_id : String → Text → Request
  gated : Text → Request
  unknown : Text → Request

-- One reply of our own, as Markdown or not, the reply to a button press, or a run of the engine.
pub data Step : Type 0 where
  press : Step
  reply : Bool → Request → Step
  run : Step

pub data Plan : Type 0 where
  denied : Plan
  nothing_to_do : Plan
  steps : List Step → Plan

pub record Wiring : Type 0 where
  pub allow : ChatId → Bool
  pub rules : Option (List Text)
  pub gated : List Text
  pub log_analysis : Bool
  pub watch : Bool

-- `d.gated = m`: the map of a later call takes the place of the earlier one.
unfoldable pub register_gated : List Text → Wiring → Wiring
register_gated names w = record w { gated = names }

-- The three calls of app.go, in order.
unfoldable pub app_gates : Wiring → Wiring
app_gates w =
    register_gated (codes "/register_rules" ∷ [])
      (register_gated (codes "/addrule" ∷ []) (register_gated (codes "/reload_rules" ∷ []) w))

abbrev second_of_three : List Text → Option Text
second_of_three (a ∷ b ∷ c ∷ []) = some b
second_of_three parts = none

abbrev starts_second : Text → Option Text → Bool
starts_second cmd none = false
starts_second cmd (some pattern) = has_prefix cmd pattern

abbrev first_of : Text → Option (Text × Text) → Text
first_of text none = text
first_of text (some (before, after)) = before

abbrev pub command_of : Text → Text
command_of text = trim_space (first_of text (cut 32 text))

abbrev known_in : Text → Option (List Text) → Bool
known_in cmd none = true
known_in cmd (some lines) =
    any (λ line. starts_second cmd (second_of_three (split_text arrow 0 line))) lines

unfoldable pub known_router_command : Wiring → Text → Bool
known_router_command w text = known_in (command_of text) w.rules

unfoldable pub unknown_or_run : Wiring → Text → List Step
unknown_or_run w text =
    if has_prefix (codes "/") text && not (known_router_command w text)
    then reply true (unknown text) ∷ []
    else run ∷ []

unfoldable pub gated_or_rest : Wiring → Text → List Step
gated_or_rest w text =
    if any (text_eq (command_of text)) w.gated
    then reply false (gated text) ∷ []
    else unknown_or_run w text

abbrev pub verdict_of : Text → Option String
verdict_of word =
    if text_eq word (codes "approve")
    then some "approved"
    else if text_eq word (codes "deny")
    then some "denied"
    else none

abbrev pub decide_with : Option String → Text → List Step → List Step
decide_with none arg rest = rest
decide_with (some state) arg rest = reply false (decide_id state arg) ∷ []

abbrev pub decide_prefixed : Option (Text × Text) → List Step → List Step
decide_prefixed none rest = rest
decide_prefixed (some (word, arg)) rest = decide_with (verdict_of word) arg rest

-- What follows the switch.
unfoldable pub after_switch : Wiring → Text → List Step
after_switch w text = decide_prefixed (cut 32 (trim_prefix (codes "/") text)) (gated_or_rest w text)

abbrev pub one_of : String → List String → Bool
one_of t names = any (str_eq t) names

abbrev pub analysis_commands : List String
analysis_commands = "/api_perf" ∷ "/exceptions" ∷ "/access" ∷ "/audit" ∷ "/behaviour" ∷ []

abbrev pub watch_commands : List String
watch_commands = "/watch" ∷ "/unwatch" ∷ "/watchlist" ∷ "/analyze" ∷ []

-- The exact cases that return.
abbrev pub exact_cases : List (String × Step)
exact_cases =
    ("/help", reply true help)
    ∷ ("/start", reply true help)
    ∷ ("/rules", reply false rules)
    ∷ ("/approvals", reply false approvals)
    ∷ ("/status", reply true status)
    ∷ ("/stats", reply true status)
    ∷ ("/history", reply false history)
    ∷ ("/health", reply false health)
    ∷ ("/jobs", reply false jobs)
    ∷ ("/cancel_job", reply false (cancel_job []))
    ∷ ("/scheduled", reply false scheduled)
    ∷ ("/unschedule", reply false (unschedule (codes "/unschedule")))
    ∷ ("/deny", reply false (decide_oldest "denied"))
    ∷ ("/approve", reply false (decide_oldest "approved"))
    ∷ []

abbrev pub find_case : String → List (String × Step) → Option Step
find_case t [] = none
find_case t ((n, s) ∷ cs) = if str_eq t n then some s else find_case t cs

-- The two cases that, once wired, do not return.
abbrev pub falling : Bool → String → Request → List Step → List Step
falling true name r rest = reply true r ∷ rest
falling false name r rest = reply false (not_wired name) ∷ []

abbrev pub or_fall : Wiring → String → Option Step → List Step
or_fall w t (some s) = s ∷ []
or_fall w t none =
    if one_of t analysis_commands
    then falling w.log_analysis "Log analysis" (log_analysis (codes t)) (after_switch w (codes t))
    else if one_of t watch_commands
    then falling w.watch "Watchdog" (watch (codes t)) (after_switch w (codes t))
    else after_switch w (codes t)

unfoldable pub switch_on : Wiring → String → List Step
switch_on w t = or_fall w t (find_case t exact_cases)

-- The arms with a prefix come before the switch.
unfoldable pub plan_text : Wiring → String → List Step
plan_text w t =
    if has_prefix (codes "/stats ") (codes t)
    then reply true (stats (trim_space (trim_prefix (codes "/stats") (codes t)))) ∷ []
    else if str_eq t "/rules export"
    then reply false rules_export ∷ []
    else if has_prefix (codes "/every ") (codes t)
    then reply false (every (codes t)) ∷ []
    else if has_prefix (codes "/cancel_job ") (codes t)
    then reply false (cancel_job (trim_space (trim_prefix (codes "/cancel_job ") (codes t)))) ∷ []
    else switch_on w t

abbrev pub no_chat : ChatId → Bool
no_chat (ChatId.pos n) = n == 0
no_chat (ChatId.negsuc n) = false

unfoldable pub plan : Wiring → InboxRow → Plan
plan w row =
    if no_chat row.chat_id || not (w.allow row.chat_id)
    then denied
    else if empty (trim_space (codes row.text)) && str_eq row.callback_data ""
    then nothing_to_do
    else if not (str_eq row.callback_data "")
    then steps (press ∷ [])
    else steps (plan_text w row.text)

-- A call of the Bot API that went through.
pub data Delivery : Type 0 where
  message : ChatId → Text → Delivery
  markdown : ChatId → Text → Delivery
  edit : ChatId → Text → Delivery

-- `outbox` and `toasts` are newest first, the toasts as they were asked for. `calls` counts the
-- dispatcher's own calls of the Bot API and `waits` those of waitChat; what the callbacks behind a
-- command send is part of what the command does to `state`.
pub record Bot (S : Type 0) : Type 0 where
  pub inbox : Inbox
  pub state : S
  pub outbox : List Delivery
  pub toasts : List Toast
  pub calls : ℕ
  pub waits : ℕ

-- The outside: the drivers' verdicts, whether the client knows Markdown, and the two computations.
pub record Outside (S : Type 0) : Type 0 where
  pub accepts : ℕ → Bool
  pub delivers : ℕ → Bool
  pub passes : ℕ → Bool
  pub knows_markdown : Bool
  pub approver : Bool
  pub perform : Request → InboxRow → S → Text × S
  pub engine : Text → S → RunResult × S

module _ {S : Type 0} (o : Outside S) where
  -- AnswerCallbackQuery of the client, whose error is dropped.
  abbrev pub show_toast : Toast → Bot S → Bot S
  show_toast t b = record b { toasts = t ∷ b.toasts; calls = b.calls + 1 }

  abbrev pub press_reply : InboxRow → Press → Bot S → Text × Bot S
  press_reply row (bad_data d) b = (codes "Bad callback data: " ++ d, b)
  press_reply row (bad_id d) b = (codes "Bad approval id in callback: " ++ d, b)
  press_reply row (bad_action a) b = (codes "Unknown callback action: " ++ a, b)
  press_reply row (asks want id) b =
      let (outcome, s) = o.perform (decide_press want id) row b.state in
      (outcome, show_toast (toast_of want outcome) (record (show_toast processing b) { state = s }))

  unfoldable pub callback_text : InboxRow → Bot S → Text × Bot S
  callback_text row b =
      if o.approver
      then press_reply row (parse_press (trim_space (codes row.callback_data))) b
      else (codes "Approvals unavailable (no store wired).", b)

  -- One call of the Bot API.
  abbrev pub call : Delivery → Bot S → Bool × Bot S
  call d b =
      let made = record b { calls = b.calls + 1 } in
      if o.delivers b.calls then (true, record made { outbox = d ∷ b.outbox }) else (false, made)

  unfoldable pub release : ℕ → Bot S → Bot S
  release id b = record b { inbox = fail_and_reopen o.accepts id b.inbox }

  -- waitChat, then a message.
  unfoldable pub throttled : Delivery → Bot S → Bool × Bot S
  throttled d b =
      let waited = record b { waits = b.waits + 1 } in
      if o.passes b.waits then call d waited else (false, waited)

  abbrev pub or_release : ℕ → Bool × Bot S → Bot S
  or_release id (true, b) = b
  or_release id (false, b) = release id b

  abbrev pub if_claimed : Result InboxError Bool × Inbox → Bot S → (Bot S → Bot S) → Bot S
  if_claimed (err e, ib) b k = record b { inbox = ib }
  if_claimed (ok false, ib) b k = record b { inbox = ib }
  if_claimed (ok true, ib) b k = k (record b { inbox = ib })

  abbrev pub delivery : Bool → ChatId → Text → Delivery
  delivery md chat text = if o.knows_markdown && md then markdown chat text else message chat text

  unfoldable pub claim_and_send : Bool → InboxRow → Text × Bot S → Bot S
  claim_and_send md row (body, b) =
      if_claimed (claim_reply o.accepts row.update_id b.inbox) b
        (λ c. or_release row.update_id (throttled (delivery md row.chat_id body) c))

  -- The answer of a command: a message of its own.
  abbrev send_answer : InboxRow → RunResult × S → Bot S → Bot S
  send_answer row (r, s) b =
      or_release row.update_id
        (throttled (message row.chat_id (format_reply r)) (record b { state = s }))

  abbrev pub edited : InboxRow → Text → Bool × Bot S → Bot S
  edited row body (true, b) = b
  edited row body (false, b) = (throttled (message row.chat_id body) b).1

  -- The answer of a free prompt: an edit of the placeholder, or a message if the edit fails.
  abbrev pub edit_answer : InboxRow → RunResult × S → Bot S → Bot S
  edit_answer row (r, s) b =
      edited row (format_reply r)
        (call (edit row.chat_id (format_reply r)) (record b { state = s }))

  abbrev pub with_placeholder : InboxRow → Bool × Bot S → Bot S
  with_placeholder row (false, b) = release row.update_id b
  with_placeholder row (true, b) = edit_answer row (o.engine (codes row.text) b.state) b

  abbrev pub run_claimed : InboxRow → Bot S → Bot S
  run_claimed row b =
      if has_prefix (codes "/") (codes row.text)
      then send_answer row (o.engine (codes row.text) b.state) b
      else with_placeholder row (throttled (message row.chat_id ellipsis) b)

  unfoldable pub run_step : InboxRow → Bot S → Bot S
  run_step row b = if_claimed (claim_reply o.accepts row.update_id b.inbox) b (run_claimed row)

  -- A command's answer, and the change behind it.
  abbrev pub performed_by : Request → InboxRow → Bot S → Text × Bot S
  performed_by r row b = let (body, s) = o.perform r row b.state in (body, record b { state = s })

  unfoldable pub run_steps : InboxRow → List Step → Bot S → Bot S
  run_steps row [] b = b
  run_steps row (reply md r ∷ rest) b =
      run_steps row rest (claim_and_send md row (performed_by r row b))
  run_steps row (press ∷ rest) b =
      run_steps row rest (claim_and_send false row (callback_text row b))
  run_steps row (run ∷ rest) b = run_steps row rest (run_step row b)

  unfoldable pub run_plan : InboxRow → Plan → Bot S → Bot S
  run_plan row denied b = record b { inbox = mark_status o.accepts row.update_id "skipped" b.inbox }
  run_plan row nothing_to_do b = record b {
    inbox = mark_status o.accepts row.update_id "skipped" b.inbox;
  }
  run_plan row (steps ss) b = run_steps row ss b

  unfoldable pub process : Wiring → InboxRow → Bot S → Bot S
  process w row b = run_plan row (plan w row) b
