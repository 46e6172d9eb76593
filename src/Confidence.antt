-- ===== src/Confidence.antt =====
-- internal/engine/confidence.go: the deterministic score of a run.
pub mod Laws
use Prim.Native.String.{◌++◌}
use aegis_go.Prelude.{
  ℕ, suc, ◌+◌, Bool, true, false, String, str_eq, List, [], ◌∷◌, any, if◌then◌else◌, ltb, leb, ◌==◌,
}
use aegis_go.Rules.{Text}

abbrev conf_high_min : ℕ
conf_high_min = 80

abbrev conf_medium_min : ℕ
conf_medium_min = 60

-- The strings HIGH, MEDIUM and LOW; a result that was never scored has none of them.
pub data Band : Type 0 where
  high medium low unscored : Band

pub record Confidence : Type 0 where
  pub score : ℕ
  pub band : Band
  pub why : String

unfoldable pub band_of : ℕ → Band
band_of score =
    if leb conf_high_min score then high else if leb conf_medium_min score then medium else low

unfoldable pub score_router : Confidence
score_router = record { score = 100; band = high; why = "deterministic rule + native tool" }

unfoldable pub score_classifier : Confidence
score_classifier = record {
  score = 90;
  band = high;
  why = "model-routed, deterministic tool output";
}

unfoldable pub score_none : String → Confidence
score_none why = record { score = 0; band = low; why = why }

-- The two patterns that the score looks for in an answer, as the engine's answer to them.
pub record Signals : Type 0 where
  pub cites_rule : Text → Bool
  pub is_structured : Text → Bool

abbrev tool_points : ℕ → ℕ
tool_points used = if leb 2 used then 12 else if used == 1 then 6 else 0

abbrev tool_reason : ℕ → String
tool_reason used =
    if leb 2 used
    then "grounded in 2+ tool results"
    else if used == 1
    then "grounded in 1 tool result"
    else "model judgment, unverified"

abbrev pub points : Bool → ℕ → ℕ
points holds n = if holds then n else 0

abbrev raw_score : Signals → Text → ℕ → ℕ → ℕ
raw_score sig answer tools_used rule_count =
    55
    + tool_points tools_used
    + points (sig.cites_rule answer) 10
    + points (ltb 0 rule_count) 8
    + points (sig.is_structured answer) 4

unfoldable pub score_llm : Signals → Text → ℕ → ℕ → Confidence
unfolding band_of
score_llm sig answer tools_used rule_count =
    let raw = raw_score sig answer tools_used rule_count in
    let score = if ltb 100 raw then 100 else raw in
    record {
      score = score;
      band = band_of score;
      why =
          if sig.cites_rule answer
          then tool_reason tools_used ++ " + cites router rule"
          else tool_reason tools_used;
    }

abbrev pub contains : List String → String → Bool
contains names n = any (str_eq n) names

-- The `seen` set of the loop holds the names passed so far.
unfoldable pub distinct_from : List String → List String → ℕ
distinct_from seen [] = 0
distinct_from seen (n ∷ names) =
    let fresh = distinct_from (n ∷ seen) names in
    let old = distinct_from seen names in
    if str_eq n "" then old else if contains seen n then old else suc fresh

unfoldable pub distinct_tool_count : List String → ℕ
unfolding distinct_from
distinct_tool_count names = distinct_from [] names
