-- ===== src/AddRule/Export.antt =====
-- internal/telegram/dispatcher.go (rulesExportText): the text of /rules export, for an exporter that
-- is wired.
use aegis_go.Prelude.{ℕ, List, [], ◌∷◌, ◌++◌, Option, none, some, length}
use aegis_go.Prelude.Decimal.{itoa}
use aegis_go.Texts.{arrow, trim_end}
use aegis_go.Rules.{Text, codes, RuleDef, replay_line}

abbrev pub reference_line : RuleDef → Text
reference_line d = codes d.name ++ (arrow ++ (codes d.pattern ++ (arrow ++ codes d.tool)))

abbrev add_replay : Option Text → List Text → List Text
add_replay none ls = ls
add_replay (some l) ls = (codes "/addrule " ++ l) ∷ ls

unfoldable pub replays : List RuleDef → List Text
replays [] = []
replays (d ∷ ds) = add_replay (replay_line d) (replays ds)

abbrev add_reference : RuleDef → Option Text → List Text → List Text
add_reference d none ls = reference_line d ∷ ls
add_reference d (some l) ls = ls

unfoldable pub references : List RuleDef → List Text
references [] = []
references (d ∷ ds) = add_reference d (replay_line d) (references ds)

abbrev pub write_lines : List Text → Text
write_lines [] = []
write_lines (l ∷ ls) = l ++ (10 ∷ write_lines ls)

abbrev pub header : ℕ → ℕ → Text
header live n =
    codes "Rules export ("
    ++ (itoa live ++ (codes " live, " ++ (itoa n ++ codes " replayable as /addrule):")))

abbrev pub shipped : List Text → Text
shipped [] = []
shipped (l ∷ ls) =
    10 ∷ (codes "Shipped with the binary (not chat-addable):" ++ (10 ∷ write_lines (l ∷ ls)))

abbrev pub export_body : List RuleDef → Text
export_body defs =
    header (length defs) (length (replays defs))
    ++ (10 ∷ (write_lines (replays defs) ++ shipped (references defs)))

unfoldable pub rules_export_text : List RuleDef → Text
unfolding replays references
rules_export_text [] = codes "No rules to export."
rules_export_text (d ∷ ds) = trim_end 10 (export_body (d ∷ ds))
