-- ===== src/Engine/Format.antt =====
-- The texts that the engine composes: `fmt`'s %q and %s, and the fixed answers of engine.go.
use aegis_go.Prelude.{ℕ, ◌/◌, ◌%◌, String, [], ◌∷◌, ◌++◌, if◌then◌else◌, ltb, ◌==◌}
use aegis_go.Rules.{Text, codes}
use aegis_go.Router.{ToolError, vanished, failed}
use aegis_go.Router.Splice.{hex_digit}

-- strconv.Quote on printable text and ASCII control characters.
unfoldable pub quote_char : ℕ → Text
quote_char c =
    if c == 34
    then 92 ∷ 34 ∷ []
    else if c == 92
    then 92 ∷ 92 ∷ []
    else if c == 7
    then codes "\\a"
    else if c == 8
    then codes "\\b"
    else if c == 12
    then codes "\\f"
    else if c == 10
    then codes "\\n"
    else if c == 13
    then codes "\\r"
    else if c == 9
    then codes "\\t"
    else if c == 11
    then codes "\\v"
    else if ltb c 32
    then codes "\\x" ++ hex_digit (c / 16) ∷ hex_digit (c % 16) ∷ []
    else if c == 127
    then codes "\\x7f"
    else c ∷ []

unfoldable pub quote_body : Text → Text
unfolding quote_char
quote_body [] = []
quote_body (c ∷ s) = quote_char c ++ quote_body s

unfoldable pub quoted : String → Text
unfolding quote_body
quoted s = 34 ∷ (quote_body (codes s) ++ 34 ∷ [])

unfoldable pub error_text : ToolError → Text
unfolding quoted
error_text (vanished tool) = codes "tool " ++ (quoted tool ++ codes " vanished")
error_text (failed message) = message

unfoldable pub command_failed : String → ToolError → Text
unfolding error_text
command_failed rule e = codes "command " ++ (quoted rule ++ (codes " failed: " ++ error_text e))

unfoldable pub llm_failed : Text → Text
llm_failed message = codes "LLM run failed: " ++ message

unfoldable pub llm_off_answer : Text
llm_off_answer =
    codes "No deterministic rule matched and the LLM fallback is disabled (AEGIS_LLM=off)."
