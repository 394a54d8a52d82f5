-- ===== src/Examples/Correlation.antt =====
-- The correlation engine at concrete rules and events.
use siem_sentinel_xv.Base.{
  ℕ, ◌≤◌, ◌≡◌, ◌*◌, refl, true, false, none, some, List, String, [], ◌∷◌, All, length, pos, arith,
  eq_iff,
}
use siem_sentinel_xv.Value.{Value, dict, str, end, field}
use siem_sentinel_xv.Detection.Fields.{canonical_step, get_canonical_field}
use siem_sentinel_xv.Detection.Fallback.{get_canonical_field-depth}
use siem_sentinel_xv.Correlation.Rule.{DetectionRule, matches_event, get_group_key}
use siem_sentinel_xv.Correlation.Window.{Hit, bucket_hit, stored_hit}
use siem_sentinel_xv.Correlation.Window.Runs.{
  run, history_hit, run-bucket-eq-stored, run-bucket-eq-history, bucket_hit-evidence, IsWithin,
}
use siem_sentinel_xv.Correlation.Engine.{Event, Engine, Key, process_event, raw_key}
use siem_sentinel_xv.Correlation.Engine.Windows.{
  process_event-tenants, process_event-IsBelow, IsBelow,
}
use siem_sentinel_xv.Correlation.Engine.Keys.{sanitize_key, raw_key-sanitize}

abbrev at : ℕ → String → Hit
at t id = record { ts = t * 1000000; id = id }

abbrev hits : List Hit
hits = at 10 "a" ∷ at 20 "b" ∷ at 75 "c" ∷ at 76 "d" ∷ at 77 "e" ∷ []

-- A window of 60 seconds and a threshold of 3: the third event comes too late for the first.
three_in_a_minute :
    (run (bucket_hit 60 3) [] hits).0
    ≡ none ∷ none ∷ none ∷ some (at 20 "b" ∷ at 75 "c" ∷ at 76 "d" ∷ []) ∷ none ∷ []
unfolding run bucket_hit
three_in_a_minute = refl

run-bucket-eq-stored_example : run (bucket_hit 60 3) [] hits ≡ run (stored_hit 60 3) [] hits
run-bucket-eq-stored_example = run-bucket-eq-stored 60 3 0 [] hits tt tt (omega arith)

run-bucket-eq-history_example :
    (run (bucket_hit 60 3) [] hits).0 ≡ (run (history_hit 60 3) [] hits).0
run-bucket-eq-history_example = run-bucket-eq-history 60 3 hits (omega arith)

abbrev late : List Hit
late = at 20 "b" ∷ at 75 "c" ∷ []

bucket_hit-evidence_example :
    (3 ≤ length (at 20 "b" ∷ at 75 "c" ∷ at 76 "d" ∷ []))
    × All (IsWithin 60 (at 76 "d").ts) (at 20 "b" ∷ at 75 "c" ∷ at 76 "d" ∷ [])
unfolding bucket_hit
bucket_hit-evidence_example =
    bucket_hit-evidence 60 3 late (at 20 "b" ∷ at 75 "c" ∷ at 76 "d" ∷ []) (at 76 "d") (omega arith)
      (omega arith) refl

abbrev ssh : DetectionRule
ssh = record {
  id = "RULE_SYS_SSH_BRUTEFORCE";
  tenant_id = "default";
  name = "ssh";
  description = "";
  category = "system";
  severity = 85;
  risk_score = pos 85000000;
  event_conditions = field "service.name" (str "sshd") end;
  group_by = "source.ip" ∷ [];
  threshold = 2;
  time_window_seconds = 300;
  enabled = true;
}

abbrev doc : Value
doc = dict (
    field "service" (dict (field "name" (str "sshd") end))
      (field "source" (dict (field "ip" (str "10.0.0.7") end)) end))

abbrev login : Event
login = record { doc = doc; id = "e1"; tenant = "acme"; ts = 1000000 }

abbrev engine : Engine
engine = record { rules = ssh ∷ []; windows = λ k. [] }

ssh_matches : matches_event ssh doc ≡ true
unfolding matches_event
ssh_matches = refl

ssh_group : get_group_key ssh doc ≡ "10.0.0.7"
unfolding get_group_key
ssh_group = refl

abbrev other_key : Key
other_key = record { tenant = "initech"; rule = ssh.id; group = "10.0.0.7" }

process_event-tenants_example : (process_event {A = ℕ} engine login none).0.windows other_key ≡ []
process_event-tenants_example =
    process_event-tenants {A = ℕ} engine login none other_key
      (ground (arith, eq_iff "acme" "initech"))

process_event-IsBelow_example :
    All
      (IsBelow (process_event {A = ℕ} engine login none).0.windows)
      (process_event {A = ℕ} engine login none).0.rules
process_event-IsBelow_example =
    process_event-IsBelow {A = ℕ} engine login none (tt, tt) (omega arith, tt)
      ((λ t g. omega arith), tt)

abbrev off : DetectionRule
off = record ssh { id = "off"; enabled = false }

raw_key-sanitize_example :
    raw_key (sanitize_key (record { tenant = "acme"; rule = "r"; group = "a b" }))
    ≡ raw_key (record { tenant = "acme"; rule = "r"; group = "a b" })
raw_key-sanitize_example = raw_key-sanitize (record { tenant = "acme"; rule = "r"; group = "a b" })

get_canonical_field-depth_example :
    canonical_step doc (canonical_step doc (λ p. str p)) "ip_client"
    ≡ get_canonical_field doc "ip_client"
get_canonical_field-depth_example = get_canonical_field-depth doc (λ p. str p) "ip_client"
