-- ===== src/Rules/Seeded.antt =====
-- internal/router/seeded.go: the rule set that ships with the binary, in its order.
use aegis_go.Prelude.{String, List, [], ◌∷◌}
use aegis_go.Rules.{RuleDef, codes}

abbrev seed_rule : String → String → String → String → RuleDef
seed_rule name pattern tool args = record {
  name = name;
  pattern = pattern;
  tool = tool;
  args_template = codes args;
  origin = "seed";
  state = "";
}

unfoldable pub seeded : List RuleDef
seeded =
    seed_rule "uptime" "/uptime" "system_command" "{\"command\":\"uptime\"}"
    ∷ seed_rule "disk" "/disk|/df" "system_command" "{\"command\":\"disk\"}"
    ∷ seed_rule "memory" "/memory|/free" "system_command" "{\"command\":\"memory\"}"
    ∷ seed_rule "hostname" "/hostname" "system_command" "{\"command\":\"hostname\"}"
    ∷ seed_rule "kernel" "/kernel|/uname" "system_command" "{\"command\":\"kernel\"}"
    ∷ seed_rule "who" "/who" "system_command" "{\"command\":\"who\"}"
    ∷ seed_rule "csv_head_n" "/csv_head\\s+(\\S+)\\s+(\\d+)" "read_csv"
        "{\"path\":\"$1\",\"max_rows\":$2}"
    ∷ seed_rule "csv_head" "/csv_head\\s+(\\S+)" "read_csv" "{\"path\":\"$1\"}"
    ∷ seed_rule "csv_summary" "/csv_summary\\s+(\\S+)" "csv_stats" "{\"path\":\"$1\"}"
    ∷ seed_rule "mkdir" "/mkdir\\s+([A-Za-z0-9._][A-Za-z0-9._/-]*)" "make_dir" "{\"path\":\"$1\"}"
    ∷ seed_rule "download"
        "/download\\s+(https?://[^\\s]+)\\s+(?:to\\s+)?([A-Za-z0-9._][A-Za-z0-9._/-]*)" "download"
        "{\"url\":\"$1\",\"path\":\"$2\"}"
    ∷ seed_rule "list_dir" "/(?:ls|list)\\s+([A-Za-z0-9._][A-Za-z0-9._/-]*)" "list_dir"
        "{\"path\":\"$1\"}"
    ∷ seed_rule "ls_root" "/ls" "list_dir" "{\"path\":\".\"}"
    ∷ seed_rule "job_status" "/jobs?\\s+([A-Za-z0-9_-]+)" "job_status" "{\"job_id\":\"$1\"}"
    ∷ seed_rule "api_perf_n" "/api_perf\\s+(\\S+)\\s+-n\\s+(\\d+)" "analyze_log"
        "{\"path\":\"$1\",\"kind\":\"perf\",\"max_lines\":$2}"
    ∷ seed_rule "api_perf" "/api_perf\\s+(\\S+)" "analyze_log" "{\"path\":\"$1\",\"kind\":\"perf\"}"
    ∷ seed_rule "exceptions_n" "/exceptions\\s+(\\S+)\\s+-n\\s+(\\d+)" "analyze_log"
        "{\"path\":\"$1\",\"kind\":\"exceptions\",\"max_lines\":$2}"
    ∷ seed_rule "exceptions" "/exceptions\\s+(\\S+)" "analyze_log"
        "{\"path\":\"$1\",\"kind\":\"exceptions\"}"
    ∷ seed_rule "access_n" "/access\\s+(\\S+)\\s+-n\\s+(\\d+)" "analyze_log"
        "{\"path\":\"$1\",\"kind\":\"access\",\"max_lines\":$2}"
    ∷ seed_rule "access" "/access\\s+(\\S+)" "analyze_log" "{\"path\":\"$1\",\"kind\":\"access\"}"
    ∷ seed_rule "behaviour_n" "/behaviour\\s+(\\S+)\\s+-n\\s+(\\d+)" "analyze_log"
        "{\"path\":\"$1\",\"kind\":\"behaviour\",\"max_lines\":$2}"
    ∷ seed_rule "behaviour" "/behaviour\\s+(\\S+)" "analyze_log"
        "{\"path\":\"$1\",\"kind\":\"behaviour\"}"
    ∷ seed_rule "forecast_full"
        "/forecast\\s+(\\S+)\\s+metric=(err_rate|req_rate|latency_p95)\\s+threshold=(\\d+)\\s+window_min=(\\d+)"
        "ops_forecast" "{\"path\":\"$1\",\"metric\":\"$2\",\"threshold\":$3,\"window_min\":$4}"
    ∷ seed_rule "forecast_metric"
        "/forecast\\s+(\\S+)\\s+metric=(err_rate|req_rate|latency_p95)\\s+threshold=(\\d+)"
        "ops_forecast" "{\"path\":\"$1\",\"metric\":\"$2\",\"threshold\":$3}"
    ∷ seed_rule "forecast" "/forecast\\s+(\\S+)" "ops_forecast" "{\"path\":\"$1\"}"
    ∷ []
