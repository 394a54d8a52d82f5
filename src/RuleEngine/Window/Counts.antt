-- ===== src/RuleEngine/Window/Counts.antt =====
-- The numbers that `measure` takes of a window, against one another.
use siem_sentinel_xv.Base.{
  ℕ, suc, ◌+◌, ◌≤◌, ◌≡◌, refl, List, String, Option, none, some, [], ◌∷◌, map, length, length-map,
  arith, eq_iff, Bool, true, false, ◌=ₛ◌,
}
use siem_sentinel_xv.RuleEngine.{BufItem, Metrics}
use siem_sentinel_xv.RuleEngine.Window.{
  present, distinct, tally, tally_all, best_from, top_of, count_action, measure, is_action,
}

length-present : (xs : List (Option String)) → length (present xs) ≤ length xs
unfolding present
length-present [] = omega arith
length-present (none ∷ xs) = omega (arith, length-present xs)
length-present (some s ∷ xs) = ground (arith, length-present xs)

length-distinct : (xs : List String) → length (distinct xs) ≤ length xs
unfolding distinct
length-distinct [] = omega arith
length-distinct (s ∷ xs) = ground (arith, length-distinct xs)

unique-le-length :
    (f : BufItem → Option String) (dq : List BufItem)
    → length (distinct (present (map f dq))) ≤ length dq
unique-le-length f dq =
    omega (arith, length-distinct (present (map f dq)), length-present (map f dq), length-map f dq)

one_action : (it : BufItem) → is_action "fail" it ≡ true → is_action "success" it ≡ false
one_action it h = one it.action h
  where
    one :
        (a : Option String)
        → elim a as (λ x. Bool) [ none ↦ false | some b ↦ b =ₛ "fail" ] ≡ true
        → elim a as (λ x. Bool) [ none ↦ false | some b ↦ b =ₛ "success" ] ≡ false
    one none p = refl
    one (some b) p = rw ((eq_iff b "fail").0 p) refl

count_action-le :
    (dq : List BufItem) → count_action "fail" dq + count_action "success" dq ≤ length dq
unfolding count_action
count_action-le [] = omega arith
count_action-le (it ∷ dq) = ground (arith, one_action it, count_action-le dq)

-- The sum of the counts.
total : List (String × ℕ) → ℕ
total [] = 0
total ((s, n) ∷ counts) = n + total counts

total-tally :
    (s : String) (counts : List (String × ℕ)) → total (tally s counts) ≡ suc (total counts)
unfolding total tally
total-tally s [] = refl
total-tally s ((x, n) ∷ counts) = ground (arith, total-tally s counts)

total-tally_all :
    (xs : List String) (counts : List (String × ℕ))
    → total (tally_all xs counts) ≡ length xs + total counts
unfolding tally_all
total-tally_all [] counts = omega arith
total-tally_all (s ∷ xs) counts =
    omega (arith, total-tally_all xs (tally s counts), total-tally s counts)

best_from-le-total :
    (s : String) (n : ℕ) (counts : List (String × ℕ))
    → (best_from (s, n) counts).1 ≤ n + total counts
unfolding best_from total
best_from-le-total s n [] = omega arith
best_from-le-total s n ((x, m) ∷ counts) =
    ground (arith, best_from-le-total x m counts, best_from-le-total s n counts)

top_of-le-total : (counts : List (String × ℕ)) → (top_of counts).1 ≤ total counts
unfolding total
top_of-le-total [] = omega arith
top_of-le-total ((s, n) ∷ counts) = best_from-le-total s n counts

-- No number of distinct addresses, users, servers, paths or networks is above the number of events, nor
-- is the number of events of the busiest network, nor that of failures and successes together.
abbrev pub AreBounded : Metrics → Type 0
AreBounded m =
    (m.unique_ips ≤ m.count)
    × (m.unique_users ≤ m.count)
    × (m.unique_servers ≤ m.count)
    × (m.unique_paths ≤ m.count)
    × (m.unique_subnets24 ≤ m.count)
    × (m.top_subnet24_hits ≤ m.count)
    × (m.fail_count + m.success_count ≤ m.count)

-- The numbers of any window are bounded by its count.
pub measure-AreBounded : (dq : List BufItem) → AreBounded (measure dq)
unfolding measure
measure-AreBounded dq =
    let subnets = map (λ (it : BufItem). it.ip_subnet24) dq in
    (
      unique-le-length (λ it. it.ip_client) dq,
      unique-le-length (λ it. it.username) dq,
      unique-le-length (λ it. it.server) dq,
      unique-le-length (λ it. it.path) dq,
      unique-le-length (λ it. it.ip_subnet24) dq,
      unfold total in
          omega (
            arith,
            top_of-le-total (tally_all (present subnets) []),
            total-tally_all (present subnets) [],
            length-present subnets,
            length-map (λ (it : BufItem). it.ip_subnet24) dq,
          ),
      count_action-le dq,
    )
