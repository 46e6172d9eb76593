-- ===== src/Examples/Dispatches.antt =====
-- The theorems on the dispatcher, on one chat and rows of one update.
use aegis_go.Prelude.{
  ◌≢◌, ℕ, zero, suc, ◌≡◌, ◌≤◌, ◌*◌, ◌+◌, ◌-◌, refl, Bool, true, false, String, [], ◌∷◌, ◌++◌, none,
  some, any, arith, ◌⊎◌,
}
use aegis_go.Prelude.Decimal.{itoa}
use aegis_go.Rules.{Text, codes}
use aegis_go.Texts.{has_prefix, text_eq}
use aegis_go.Confidence.{Band}
use aegis_go.Engine.{RunResult, Source}
use aegis_go.Inbox.{ChatId, InboxRow, Inbox, claim_reply, fail_and_reopen}
use aegis_go.Dispatcher.{
  Request, watch, unknown, reply, steps, Wiring, Bot, Outside, message, markdown, plan, plan_text,
  switch_on, after_switch, gated_or_rest, unknown_or_run, known_router_command, app_gates, process,
  run_plan, run_steps, run_step, claim_and_send, throttled, release, command_of,
}
use aegis_go.Dispatcher.Buttons.{approved, processing}
use aegis_go.Dispatcher.Reply.{format_reply, header}
use aegis_go.Dispatcher.Laws.{IsSilent, performed_plan, toasted_plan, process_again-IsSilent}
use aegis_go.Dispatcher.Laws.Once.{SentOnce, process-SentOnce}
use aegis_go.Dispatcher.Laws.Routes.{bare_commands_unknown}
use aegis_go.Dispatcher.Laws.Unknown.{runs_engine, engine_only_for_router}
use aegis_go.Dispatcher.Laws.Free.{FreeEffect, run_step-FreeEffect}
use aegis_go.Dispatcher.Throttle.{Bucket, Sleep, token, bucket_burst, attempts, wait_chat}
use aegis_go.Dispatcher.Throttle.Laws.{wait_chat_ends, attempts_rate}
use aegis_go.Examples.{always}

abbrev owner : ChatId
owner = ChatId.pos 7

abbrev row_saying : String → InboxRow
row_saying text = record {
  update_id = 1;
  chat_id = owner;
  text = text;
  status = "pending";
  replied = false;
  callback_id = "";
  callback_data = "";
}

abbrev stranger : InboxRow
stranger = record (row_saying "/help") { chat_id = ChatId.negsuc 3 }

abbrev owned : ChatId → Bool
owned (ChatId.pos zero) = false
owned (ChatId.pos (suc n)) = true
owned (ChatId.negsuc n) = false

abbrev wiring : Wiring
wiring = record {
  allow = owned;
  rules = some (
      (codes "uptime"
        ++ (32 ∷ 226 ∷ 134 ∷ 146 ∷ 32 ∷ codes "/uptime")
        ++ (32 ∷ 226 ∷ 134 ∷ 146 ∷ 32 ∷ codes "uptime"))
      ∷ []);
  gated = [];
  log_analysis = true;
  watch = true;
}

abbrev up : RunResult
up = record {
  answer = codes "3 days";
  source = Source.regex_router;
  rule_id = "uptime";
  trace_id = "t";
  latency_ms = 12;
  confidence = record { score = 0; band = Band.unscored; why = "" };
}

abbrev text_for : Request → Text
text_for (unknown t) = codes "unknown command"
text_for r = codes "done"

-- The state counts what the commands and the engine did.
abbrev outside_with : (ℕ → Bool) → Outside ℕ
outside_with delivers = record {
  accepts = always;
  delivers = delivers;
  passes = always;
  knows_markdown = true;
  approver = true;
  perform = λ r row n. (text_for r, suc n);
  engine = λ t n. (up, n + 100);
}

abbrev outside : Outside ℕ
outside = outside_with always

abbrev inbox_of : InboxRow → Inbox
inbox_of r = record { rows = r ∷ []; acked = none; calls = 0 }

abbrev bot_of : InboxRow → Bot ℕ
bot_of r = record { inbox = inbox_of r; state = 0; outbox = []; toasts = []; calls = 0; waits = 0 }

abbrev answered_row : InboxRow
answered_row = record (row_saying "") { replied = true; status = "done"; callback_data = "apr:12" }

-- A button that is pressed again.
toasts_again :
    toasted_plan outside answered_row (plan wiring answered_row) 0 ≡ approved ∷ processing ∷ []
unfolding plan
toasts_again = refl

router_answers :
    (process outside wiring (row_saying "/uptime") (bot_of (row_saying "/uptime"))).outbox
    ≡ message owner
        (codes "[regex_router via uptime" ++ (32 ∷ 194 ∷ 183 ∷ 32 ∷ codes "12ms]\n3 days"))
      ∷ []
unfolding process plan plan_text switch_on after_switch gated_or_rest unknown_or_run
    known_router_command run_plan run_steps run_step claim_reply throttled format_reply header itoa
router_answers = refl

-- If the first send of /watch fails, the second arm answers in its place.
abbrev second_only : ℕ → Bool
second_only zero = false
second_only (suc n) = true

answered_by_the_wrong_arm :
    (process
      (outside_with second_only)
      wiring
      (row_saying "/watch")
      (bot_of (row_saying "/watch"))).outbox
    ≡ markdown owner (codes "unknown command") ∷ []
unfolding process plan plan_text switch_on after_switch gated_or_rest unknown_or_run
    known_router_command run_plan run_steps run_step claim_and_send claim_reply throttled release
    fail_and_reopen
answered_by_the_wrong_arm = refl

watch_plan :
    plan wiring (row_saying "/watch")
    ≡ steps (reply true (watch (codes "/watch")) ∷ reply true (unknown (codes "/watch")) ∷ [])
unfolding plan plan_text switch_on after_switch gated_or_rest unknown_or_run known_router_command
watch_plan = refl

process_again-IsSilent_example :
    IsSilent
      (bot_of answered_row)
      (process outside wiring answered_row (bot_of answered_row))
      (performed_plan outside answered_row (plan wiring answered_row) 0)
      (toasted_plan outside answered_row (plan wiring answered_row) 0)
process_again-IsSilent_example =
    process_again-IsSilent outside answered_row wiring (bot_of answered_row) refl

process-SentOnce_example :
    SentOnce outside
      (row_saying "/watch")
      (bot_of (row_saying "/watch"))
      (process outside wiring (row_saying "/watch") (bot_of (row_saying "/watch")))
process-SentOnce_example =
    process-SentOnce outside (row_saying "/watch") wiring (bot_of (row_saying "/watch")) refl

abbrev watch_text : String
watch_text = "/watch name=gw"

strange : known_router_command wiring (codes watch_text) ≡ false
unfolding known_router_command
strange = refl

bare_commands_unknown_example :
    plan_text (app_gates wiring) watch_text ≡ reply true (unknown (codes watch_text)) ∷ []
bare_commands_unknown_example =
    bare_commands_unknown "/watch" wiring watch_text (codes "name=gw") refl refl strange

runs_uptime : runs_engine (plan wiring (row_saying "/uptime")) ≡ true
unfolding plan plan_text switch_on after_switch gated_or_rest unknown_or_run known_router_command
runs_uptime = refl

engine_only_for_router_example :
    (wiring.allow owner ≡ true)
    × (any (text_eq (command_of (codes "/uptime"))) wiring.gated ≡ false)
    × ((has_prefix (codes "/") (codes "/uptime") ≡ false)
        ⊎ (known_router_command wiring (codes "/uptime") ≡ true))
engine_only_for_router_example = engine_only_for_router wiring (row_saying "/uptime") runs_uptime

run_step-FreeEffect_example :
    FreeEffect outside
      (row_saying "how is it")
      (bot_of (row_saying "how is it"))
      (run_step outside (row_saying "how is it") (bot_of (row_saying "how is it")))
run_step-FreeEffect_example =
    run_step-FreeEffect outside (row_saying "how is it") (bot_of (row_saying "how is it")) refl

abbrev full : Bucket
full = record { tokens = bucket_burst; last = 0 }

attempts_rate_example : (attempts (1 ∷ 2 ∷ 3 ∷ 4 ∷ []) full).0 * token ≤ bucket_burst + (5 - 1)
attempts_rate_example =
    attempts_rate (1 ∷ 2 ∷ 3 ∷ 4 ∷ []) full 1 5
      (omega arith, (omega arith, (omega arith, (omega arith, omega arith))))

abbrev undisturbed : ℕ → Sleep
undisturbed n = record { others = []; late = 0; done = false }

abbrev emptied : Bucket
emptied = record { tokens = 0; last = 0 }

wait_chat_ends_example : wait_chat undisturbed 0 (some emptied) ≢ none
wait_chat_ends_example = wait_chat_ends undisturbed 0 (some emptied)
