-- ===== src/RuleEngine/Window.antt =====
-- The window of a rule and a group in app/services/rule_engine_v2.py: the new event, eviction, and the
-- numbers that a condition is about.
pub mod Counts
pub mod Own
use siem_sentinel_xv.Base.{
  ℕ, zero, suc, ◌+◌, ◌*◌, Bool, true, false, not, ◌&&◌, Option, none, some, List, String, [], ◌∷◌,
  ◌++◌, map, mem, ltb, length, ◌=ₛ◌, if◌then◌else◌,
}
use siem_sentinel_xv.RuleEngine.{BufItem, Metrics}

-- `while dq and dq[0].ts < cutoff: dq.popleft()`
unfoldable pub evict : ℕ → ℕ → List BufItem → List BufItem
evict now window [] = []
evict now window (it ∷ dq) =
    let rest = evict now window dq in if ltb (it.ts + window * 1000000) now then rest else it ∷ dq

-- The event is appended before the eviction, which is by its own time.
unfoldable pub push : ℕ → List BufItem → BufItem → List BufItem
push window dq it = evict it.ts window (dq ++ it ∷ [])

-- The texts of a field that are there and not empty.
unfoldable pub present : List (Option String) → List String
present [] = []
present (none ∷ xs) = present xs
present (some s ∷ xs) = let rest = present xs in if s =ₛ "" then rest else s ∷ rest

-- set(xs), in the order of the last occurrences
unfoldable pub distinct : List String → List String
distinct [] = []
distinct (s ∷ xs) = let rest = distinct xs in if mem s xs then rest else s ∷ rest

unfoldable pub count_of : String → List String → ℕ
count_of s [] = 0
count_of s (x ∷ xs) = let rest = count_of s xs in if x =ₛ s then suc rest else rest

-- `counts[s] += 1`: a new key goes last
unfoldable pub tally : String → List (String × ℕ) → List (String × ℕ)
tally s [] = (s, 1) ∷ []
tally s ((x, n) ∷ counts) = if x =ₛ s then (x, suc n) ∷ counts else (x, n) ∷ tally s counts

unfoldable pub tally_all : List String → List (String × ℕ) → List (String × ℕ)
tally_all [] counts = counts
tally_all (s ∷ xs) counts = tally_all xs (tally s counts)

-- max(counts.items(), key=hits): of the largest the first one
unfoldable pub best_from : String × ℕ → List (String × ℕ) → String × ℕ
best_from (s, n) [] = (s, n)
best_from (s, n) ((x, m) ∷ counts) = best_from (if ltb n m then (x, m) else (s, n)) counts

abbrev pub top_of : List (String × ℕ) → Option String × ℕ
top_of [] = (none, 0)
top_of (c ∷ counts) = let (s, n) = best_from c counts in (some s, n)

abbrev pub is_action : String → BufItem → Bool
is_action a it = elim it.action [ none ↦ false | some b ↦ b =ₛ a ]

unfoldable pub count_action : String → List BufItem → ℕ
count_action a [] = 0
count_action a (it ∷ dq) = let rest = count_action a dq in if is_action a it then suc rest else rest

unfoldable pub measure : List BufItem → Metrics
measure dq =
    let (top, hits) = top_of (tally_all (present (map (λ it. it.ip_subnet24) dq)) []) in
    record {
      count = length dq;
      unique_paths = length (distinct (present (map (λ it. it.path) dq)));
      unique_ips = length (distinct (present (map (λ it. it.ip_client) dq)));
      unique_users = length (distinct (present (map (λ it. it.username) dq)));
      unique_servers = length (distinct (present (map (λ it. it.server) dq)));
      unique_subnets24 = length (distinct (present (map (λ it. it.ip_subnet24) dq)));
      top_subnet24 = top;
      top_subnet24_hits = hits;
      fail_count = count_action "fail" dq;
      success_count = count_action "success" dq;
    }
