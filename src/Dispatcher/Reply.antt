-- ===== src/Dispatcher/Reply.antt =====
-- internal/telegram/dispatcher.go (formatReply) and internal/engine/engine.go (Header): an engine
-- result as the chat reads it. The bytes of the dots are written out.
pub mod Laws
use aegis_go.Prelude.{
  ℕ, Bool, String, str_eq, List, [], ◌∷◌, ◌++◌, take, length, if◌then◌else◌, ltb,
}
use aegis_go.Prelude.Decimal.{itoa}
use aegis_go.Rules.{Text, codes}
use aegis_go.Confidence.{Band}
use aegis_go.Engine.{Source, RunResult}

abbrev source_name : Source → Text
source_name Source.regex_router = codes "regex_router"
source_name Source.llm = codes "llm"
source_name Source.llm_disabled = codes "llm_disabled"
source_name Source.llm_classifier = codes "llm_classifier"
source_name Source.error_source = codes "error"

abbrev via : String → Text
via rule = if str_eq rule "" then [] else codes " via " ++ codes rule

abbrev banded : Band → ℕ → Text → Text
banded Band.unscored score base = base
banded Band.high score base = base
banded Band.medium score base = base ++ (codes " MEDIUM conf=" ++ itoa score)
banded Band.low score base = base ++ (codes " LOW conf=" ++ itoa score)

unfoldable pub header : Text → RunResult → Text
header sep r = banded r.confidence.band r.confidence.score (
    codes "["
    ++ (source_name r.source ++ (via r.rule_id ++ (sep ++ (itoa r.latency_ms ++ codes "ms]")))))

abbrev pub max_reply_len : ℕ
max_reply_len = 4000

abbrev pub ellipsis : Text
ellipsis = 226 ∷ 128 ∷ 166 ∷ []

abbrev pub notice : Text
notice = 10 ∷ (ellipsis ++ codes " (truncated)")

abbrev pub or_no_output : Text → Text
or_no_output [] = codes "(no output)"
or_no_output (c ∷ s) = c ∷ s

abbrev pub clip : Text → Text
clip body = if ltb max_reply_len (length body) then take max_reply_len body ++ notice else body

abbrev pub middle_dot : Text
middle_dot = 32 ∷ 194 ∷ 183 ∷ 32 ∷ []

unfoldable pub format_reply : RunResult → Text
unfolding header
format_reply r =
    let body = clip (or_no_output r.answer) in
    if str_eq r.rule_id "" then body else header middle_dot r ++ (10 ∷ body)
