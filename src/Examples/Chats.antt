-- ===== src/Examples/Chats.antt =====
-- The theorems on the chat commands that add rules, on one rule with a pipe in its pattern.
use aegis_go.Prelude.{
  ℕ, ◌≡◌, refl, true, false, String, List, [], ◌∷◌, ◌++◌, some, arith, keep, take, ◌⊎◌,
}
use aegis_go.Prelude.Result.{ok, err}
use aegis_go.Rules.{RuleDef, Text, codes, chat_addable, replay_line}
use aegis_go.Rules.Table.{find_rule}
use aegis_go.Approvals.{Ledger}
use aegis_go.Approvals.Gate.{Tick}
use aegis_go.AddRule.{
  Checks, not_a_command, parse_add_rule, parse_body, parse_register_rules, segments, merge, assign,
  assign_all, validate,
}
use aegis_go.AddRule.Segments.{IsCarried}
use aegis_go.AddRule.RoundTrip.{IsReplayable, spec_of, parse_add_rule-replay_line}
use aegis_go.AddRule.Export.{rules_export_text}
use aegis_go.AddRule.Lines.{IsLineOf, addable}
use aegis_go.AddRule.Batch.{parse_register_rules-rules_export_text}
use aegis_go.AddRule.Run.{RuleError, upsert, World, run_register_rules}
use aegis_go.AddRule.Run.Upsert.{answer, find_rule-upsert}
use aegis_go.AddRule.Run.Laws.{Landed, upserts, run_register_rules_lands}
use aegis_go.AddRule.Run.Gate.{Door, Answered, handle_add_rule}
use aegis_go.AddRule.Run.Gate.Laws.{IsGuarded, handle_add_rule-IsGuarded}
use aegis_go.Examples.{always, engine, toolset, router, db, uptime}

abbrev checks : Checks
checks = record { compiles = λ t. true; is_object = λ t. true }

abbrev readme : RuleDef
readme = record {
  name = "readme";
  pattern = "/readme|/about";
  tool = "read_doc";
  args_template = codes "{\"path\":\"README\"}";
  origin = "manual";
  state = "active";
}

abbrev readme_line : Text
readme_line =
    codes "name=readme | pattern=/readme|/about | tool=read_doc | args={\"path\":\"README\"}"

readme_printed : replay_line readme ≡ some readme_line
unfolding replay_line chat_addable
readme_printed = refl

pattern-IsCarried : IsCarried (codes "/readme|/about")
pattern-IsCarried = record {
  trimmed = record { starts = refl; ends = refl };
  parts = (
    record { starts = refl; ends = refl },
    (record { trimmed = record { starts = refl; ends = refl }; no_key = refl }, tt),
  );
}

args-IsCarried : IsCarried (codes "{\"path\":\"README\"}")
args-IsCarried = record {
  trimmed = record { starts = refl; ends = refl };
  parts = (record { starts = refl; ends = refl }, tt);
}

readme-IsReplayable : IsReplayable checks readme
readme-IsReplayable = record {
  named = refl;
  is_command = refl;
  pattern = pattern-IsCarried;
  compiles = refl;
  args = args-IsCarried;
  is_object = refl;
}

parse_add_rule-replay_line_example :
    parse_add_rule checks (codes "/addrule " ++ readme_line) ≡ ok (spec_of readme)
parse_add_rule-replay_line_example =
    parse_add_rule-replay_line checks readme readme_line readme_printed readme-IsReplayable

-- Blanks beside a pipe of the pattern are lost, and an empty alternative is dropped.
blanks_lost :
    parse_add_rule checks (codes "/addrule name=ab | pattern=/a | /b || /c | tool=t")
    ≡ ok (record { name = codes "ab"; pattern = codes "/a|/b|/c"; tool = codes "t"; args = [] })
unfolding parse_add_rule parse_body segments merge assign assign_all validate
blanks_lost = refl

no_slash :
    parse_add_rule checks (codes "/addrule name=ab | pattern=.* | tool=t") ≡ err not_a_command
unfolding parse_add_rule parse_body segments merge assign assign_all validate
no_slash = refl

abbrev live_defs : List RuleDef
live_defs = uptime ∷ readme ∷ []

uptime-IsProse : IsLineOf checks uptime (replay_line uptime)
unfolding replay_line chat_addable
uptime-IsProse = record { one_line = refl; skipped = refl }

readme-IsLine : IsLineOf checks readme (replay_line readme)
unfolding replay_line chat_addable
readme-IsLine = (readme-IsReplayable, refl)

kept : keep addable live_defs ≡ readme ∷ []
unfolding chat_addable
kept = refl

parse_register_rules-rules_export_text_example :
    parse_register_rules checks (codes "/register_rules " ++ rules_export_text live_defs)
    ≡ ok (spec_of readme ∷ [])
parse_register_rules-rules_export_text_example =
    parse_register_rules-rules_export_text checks live_defs (uptime-IsProse, (readme-IsLine, tt))
      kept (omega arith)

find_rule-upsert_example :
    find_rule "uptime" (upsert readme db.rules)
    ≡ answer readme "uptime" (find_rule "uptime" db.rules)
find_rule-upsert_example = find_rule-upsert readme "uptime" db.rules

-- Two texts are told apart by their lengths alone.
abbrev string : Text → String
string [] = ""
string s = "read_doc"

run_register_rules_lands_example :
    (k : ℕ) × (take k (spec_of readme ∷ []) ≡ spec_of readme ∷ []
      ⊎ ((x : RuleError) × ((run_register_rules engine toolset always string
              (spec_of readme ∷ [])
              (router, db)).0
            ≡ err x)))
    × Landed router
        (upserts string (take k (spec_of readme ∷ [])) db.rules)
        (run_register_rules engine toolset always string (spec_of readme ∷ []) (router, db))
run_register_rules_lands_example =
    run_register_rules_lands engine toolset always string (spec_of readme) [] router db

abbrev door : Door
door = record {
  engine = engine;
  toolset = toolset;
  verdict = always;
  string = string;
  checks = checks;
  shown = λ e. "failed";
  accepts = always;
  config = record { wait_timeout = 3; poll_interval = 1 };
}

abbrev quiet : ℕ → Tick
quiet n = record { moves = []; late = 0; cancelled = false }

abbrev ledger : Ledger
ledger = record { rows = []; next_id = 1; calls = 0 }

handle_add_rule-IsGuarded_example :
    (out : Answered × Ledger × World) × (handle_add_rule door
        (λ s. "{}")
        (λ s. "add")
        quiet
        []
        (codes "/addrule " ++ readme_line)
        ledger
        (router, db)
      ≡ some out)
    × IsGuarded door
        (λ s. "{}")
        (λ s. "add")
        (parse_add_rule checks (codes "/addrule " ++ readme_line))
        ledger
        (router, db)
        out
handle_add_rule-IsGuarded_example =
    handle_add_rule-IsGuarded door quiet [] ledger (router, db) (λ s. "{}") (λ s. "add")
      (codes "/addrule " ++ readme_line) (omega arith) (omega arith)
