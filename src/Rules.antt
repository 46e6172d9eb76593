-- ===== src/Rules.antt =====
-- internal/router: the declarative rules (router.go), the rules table behind them (rulesstore.go,
-- reconcile.go, and the rule statements of internal/store/shadow.go), and the export dialect
-- (export.go). A table is the list of its rows in insertion order; `Text` is a string whose bytes
-- the code walks, `String` one that it only compares.
pub mod Seeded
pub mod Table
pub mod Lifecycle
pub mod Reconcile
use Prim.Native.Char.{code}
use aegis_go.Prelude.{
  ℕ, Bool, true, false, ◌||◌, String, str_eq, List, [], ◌∷◌, ◌++◌, Option, none, some,
  if◌then◌else◌, leb, ltb, ◌&&◌, map,
}

abbrev pub Text : Type 0
Text = List ℕ

-- The code points of a literal, which are its bytes where it is ASCII.
abbrev pub codes : String → Text
codes String.[] = []
codes (String.◌∷◌ c s) = code c ∷ codes s

abbrev pub rule_active : String
rule_active = "active"

abbrev pub rule_shadow : String
rule_shadow = "shadow"

abbrev pub rule_demoted : String
rule_demoted = "demoted"

pub record RuleDef : Type 0 where
  pub name : String
  pub pattern : String
  pub tool : String
  pub args_template : Text
  pub origin : String
  pub state : String

unfoldable pub effective_state : RuleDef → String
effective_state d = if str_eq d.state "" then rule_active else d.state

-- A row of the rules table; `created_ts` is never read back.
pub record RuleRow : Type 0 where
  pub def : RuleDef
  pub enabled : Bool

unfoldable pub chat_addable : String → Bool
chat_addable tool =
    str_eq tool "read_csv"
    || (str_eq tool "csv_stats" || (str_eq tool "read_doc" || str_eq tool "analyze_log"))

pub record ExportedRule : Type 0 where
  pub name : String
  pub pattern : String
  pub tool : String
  pub args_template : Text
  pub origin : String
  pub state : String
  pub chat_addable : Bool

-- `strings.TrimSpace` on ASCII text: tab, newline, vertical tab, form feed, return and space.
abbrev pub is_space : ℕ → Bool
is_space c = (leb 9 c && leb c 13) || (leb 32 c && leb c 32)

abbrev pub trim_left : Text → Text
trim_left [] = []
trim_left (c ∷ s) = let rest = trim_left s in if is_space c then rest else c ∷ s

abbrev pub trim_cons : ℕ → Text → Text
trim_cons c [] = if is_space c then [] else c ∷ []
trim_cons c (d ∷ r) = c ∷ d ∷ r

abbrev pub trim_right : Text → Text
trim_right [] = []
trim_right (c ∷ s) = trim_cons c (trim_right s)

abbrev pub trim_space : Text → Text
trim_space s = trim_right (trim_left s)

abbrev pub or_braces : Text → Text
or_braces [] = codes "{}"
or_braces (c ∷ s) = c ∷ s

unfoldable pub export_rule : RuleDef → ExportedRule
unfolding effective_state
export_rule d = record {
  name = d.name;
  pattern = d.pattern;
  tool = d.tool;
  args_template = or_braces (trim_space d.args_template);
  origin = d.origin;
  state = effective_state d;
  chat_addable = chat_addable d.tool;
}

unfoldable pub export : List RuleDef → List ExportedRule
unfolding export_rule
export defs = map export_rule defs

-- A line of the /addrule dialect, for a tool that chats may add.
unfoldable pub replay_line : RuleDef → Option Text
unfolding chat_addable
replay_line d =
    if chat_addable d.tool
    then some (
        codes "name="
        ++ (codes d.name
            ++ (codes " | pattern="
                ++ (codes d.pattern
                    ++ (codes " | tool="
                        ++ (codes d.tool
                            ++ (codes " | args=" ++ or_braces (trim_space d.args_template))))))))
    else none
