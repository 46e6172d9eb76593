-- ===== src/Confidence/Laws.antt =====
-- internal/engine/confidence.go: the range and the bands of the score.
use aegis_go.Prelude.{ℕ, ◌≤◌, ◌<◌, ◌≡◌, false, ◌↔◌, if◌then◌else◌, ltb, arith}
use aegis_go.Rules.{Text}
use aegis_go.Confidence.{high, medium, low, band_of, Signals, score_llm}

-- The bands split the scores at 60 and 80.
pub band_of_iff :
    (score : ℕ)
    → ((band_of score ≡ high) ↔ (80 ≤ score))
      × ((band_of score ≡ medium) ↔ ((60 ≤ score) × (score < 80)))
      × ((band_of score ≡ low) ↔ (score < 60))
unfolding band_of
band_of_iff score = ground arith

-- A model's answer scores from 55 to 89, so it never ships as a certainty, and its band is the
-- band of its score.
pub score_llm_bounds :
    (sig : Signals) (answer : Text) (tools_used rule_count : ℕ)
    → let c = score_llm sig answer tools_used rule_count in
      (55 ≤ c.score) × (c.score ≤ 89) × (c.band ≡ band_of c.score)
unfolding score_llm
score_llm_bounds sig answer tools_used rule_count = ground arith

-- Tool calls that ground the answer never lower its score.
score_llm_mono :
    (sig : Signals) (answer : Text) (m n rule_count : ℕ)
    → m ≤ n
    → (score_llm sig answer m rule_count).score ≤ (score_llm sig answer n rule_count).score
unfolding score_llm
score_llm_mono sig answer m n rule_count h = ground arith

-- Without a tool call, a rule reference or structure the answer is MEDIUM if the router has rules,
-- and LOW otherwise.
score_llm_ungrounded :
    (sig : Signals) (answer : Text) (rule_count : ℕ)
    → sig.cites_rule answer ≡ false
    → sig.is_structured answer ≡ false
    → (score_llm sig answer 0 rule_count).band ≡ (if ltb 0 rule_count then medium else low)
unfolding score_llm
score_llm_ungrounded sig answer rule_count h k = ground arith
