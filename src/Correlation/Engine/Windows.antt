-- ===== src/Correlation/Engine/Windows.antt =====
-- What `process_event` of app/services/correlation_engine.py does to the windows.
use siem_sentinel_xv.Base.{
  ℕ, ◌≤◌, ◌<◌, ◌≡◌, refl, ◌≢◌, false, Option, none, some, List, String, [], ◌∷◌, All, All-append,
  length, arith, eq_iff, sym, length-map, length-append,
}
use siem_sentinel_xv.Correlation.Rule.{DetectionRule}
use siem_sentinel_xv.Correlation.Window.{Bucket, Hit, bucket_hit, get_event_ids, evict_expired}
use siem_sentinel_xv.Correlation.Window.Runs.{bucket_hit-lt-threshold}
use siem_sentinel_xv.Correlation.Engine.{
  Event, Key, Windows, Engine, Alert, set_window, apply_rule, apply_rules, process_event, alerts_of,
  alert_of, same_key, key_of, hit_of,
}

apply_rule-other :
    (rule : DetectionRule) (event : Event) (w : Windows) (k : Key)
    → same_key (key_of rule event) k ≡ false
    → (apply_rule rule event w).0 k ≡ w k
unfolding apply_rule set_window
apply_rule-other rule event w k h = ground arith

tenant-differs :
    (rule : DetectionRule) (event : Event) (k : Key)
    → event.tenant ≢ k.tenant
    → same_key (key_of rule event) k ≡ false
tenant-differs rule event k h = ground (arith, eq_iff event.tenant k.tenant)

apply_rules-tenant :
    (rules : List DetectionRule) (event : Event) (w : Windows) (k : Key)
    → event.tenant ≢ k.tenant
    → (apply_rules rules event w).0 k ≡ w k
unfolding apply_rules
apply_rules-tenant [] event w k h = refl
apply_rules-tenant (rule ∷ rules) event w k h =
    rw (apply_rules-tenant rules event (apply_rule rule event w).0 k h)
      (apply_rule-other rule event w k (tenant-differs rule event k h))

-- An event of one tenant leaves every window of every other tenant as it was, whatever the rules.
pub process_event-tenants {ℓ} :
    {A : Type ℓ} (eng : Engine) (event : Event) (found : Option (List A)) (k : Key)
    → event.tenant ≢ k.tenant
    → (process_event eng event found).0.windows k ≡ eng.windows k
unfolding process_event
process_event-tenants eng event found k h = apply_rules-tenant eng.rules event eng.windows k h

-- Every window of the rule is below the rule's threshold.
abbrev pub IsBelow : Windows → DetectionRule → Type 0
IsBelow w rule =
    (tenant group : String)
    → length (w (record { tenant = tenant; rule = rule.id; group = group })) < rule.threshold

-- No two rules have one id.
abbrev pub IsDistinct : List DetectionRule → Type 0
IsDistinct [] = Unit
IsDistinct (r ∷ rules) = All (λ s. r.id ≢ s.id) rules × IsDistinct rules

apply_rule_self :
    (rule : DetectionRule) (event : Event) (w : Windows)
    → 1 ≤ rule.threshold
    → IsBelow w rule
    → IsBelow (apply_rule rule event w).0 rule
unfolding apply_rule set_window
apply_rule_self rule event w h below tenant group = ground (
  arith,
  below tenant group,
  bucket_hit-lt-threshold rule.time_window_seconds rule.threshold (w (key_of rule event))
      (hit_of event) h,
)

apply_rule-IsBelow :
    (rule other : DetectionRule) (event : Event) (w : Windows)
    → rule.id ≢ other.id
    → IsBelow w other
    → IsBelow (apply_rule rule event w).0 other
apply_rule-IsBelow rule other event w h below tenant group =
    let k : Key = record { tenant = tenant; rule = other.id; group = group } in
    rw (apply_rule-other rule event w k (ground (arith, eq_iff rule.id other.id)))
      (below tenant group)

apply_rules-IsBelow :
    (rules : List DetectionRule) (event : Event) (w : Windows) (other : DetectionRule)
    → All (λ r. other.id ≢ r.id) rules
    → IsBelow w other
    → IsBelow (apply_rules rules event w).0 other
unfolding apply_rules
apply_rules-IsBelow [] event w other h below = below
apply_rules-IsBelow (rule ∷ rules) event w other h below =
    apply_rules-IsBelow rules event (apply_rule rule event w).0 other h.1
      (apply_rule-IsBelow rule other event w (λ e. h.0 (sym e)) below)

weaken :
    (rule : DetectionRule) (event : Event) (w : Windows) (rules : List DetectionRule)
    → All (λ s. rule.id ≢ s.id) rules
    → All (IsBelow w) rules
    → All (IsBelow (apply_rule rule event w).0) rules
weaken rule event w [] d h = tt
weaken rule event w (s ∷ rules) d h =
    (apply_rule-IsBelow rule s event w d.0 h.0, weaken rule event w rules d.1 h.1)

apply_rules-All :
    (rules : List DetectionRule) (event : Event) (w : Windows)
    → IsDistinct rules
    → All (λ r. 1 ≤ r.threshold) rules
    → All (IsBelow w) rules
    → All (IsBelow (apply_rules rules event w).0) rules
unfolding apply_rules
apply_rules-All [] event w d t h = tt
apply_rules-All (rule ∷ rules) event w d t h = (
  apply_rules-IsBelow rules event (apply_rule rule event w).0 rule d.0
      (apply_rule_self rule event w t.0 h.0),
  apply_rules-All rules event (apply_rule rule event w).0 d.1 t.1
      (weaken rule event w rules d.0 h.1),
)

-- If the rules have ids of their own and thresholds of one or more, and every window of every rule is
-- below its rule's threshold, then so it is after any event.
pub process_event-IsBelow {ℓ} :
    {A : Type ℓ} (eng : Engine) (event : Event) (found : Option (List A))
    → IsDistinct eng.rules
    → All (λ r. 1 ≤ r.threshold) eng.rules
    → All (IsBelow eng.windows) eng.rules
    → All
        (IsBelow (process_event eng event found).0.windows)
        (process_event eng event found).0.rules
unfolding process_event
process_event-IsBelow eng event found d t h = apply_rules-All eng.rules event eng.windows d t h

-- What every alert of a window says.
abbrev pub IsFair : Event → Alert → Type 0
IsFair event a =
    (a.tenant_id ≡ event.tenant)
    × (a.trigger_count ≡ length a.related_event_ids)
    × (1 ≤ a.trigger_count)

alerts_of-IsFair :
    (rule : DetectionRule) (event : Event) (fired : Option Bucket)
    → ((events : Bucket) → fired ≡ some events → 1 ≤ length events)
    → All (IsFair event) (alerts_of get_event_ids rule event fired)
unfolding alert_of get_event_ids
alerts_of-IsFair rule event none h = tt
alerts_of-IsFair rule event (some events) h =
    ((refl, sym (length-map (λ (e : Hit). e.id) events), h events refl), tt)

fired_pos :
    (window threshold : ℕ) (events fired : Bucket) (hit : Hit)
    → (bucket_hit window threshold events hit).1 ≡ some fired
    → 1 ≤ length fired
unfolding bucket_hit
fired_pos window threshold events fired hit e =
    ground (arith, length-append (evict_expired hit.ts window events) (hit ∷ []))

apply_rule-IsFair :
    (rule : DetectionRule) (event : Event) (w : Windows)
    → All (IsFair event) (apply_rule rule event w).1
unfolding apply_rule
apply_rule-IsFair rule event w =
    let k = key_of rule event in
    ground (
      arith,
      alerts_of-IsFair rule event
          (bucket_hit rule.time_window_seconds rule.threshold (w k) (hit_of event)).1
          (λ events e.
            fired_pos rule.time_window_seconds rule.threshold (w k) events (hit_of event) e),
    )

apply_rules-IsFair :
    (rules : List DetectionRule) (event : Event) (w : Windows)
    → All (IsFair event) (apply_rules rules event w).1
unfolding apply_rules
apply_rules-IsFair [] event w = tt
apply_rules-IsFair (rule ∷ rules) event w =
    All-append (IsFair event) (apply_rule rule event w).1
      (apply_rules rules event (apply_rule rule event w).0).1 (apply_rule-IsFair rule event w)
      (apply_rules-IsFair rules event (apply_rule rule event w).0)

-- Every alert that a window raises carries the event's tenant, and counts the events that it names, of
-- which there is at least one.
pub process_event-IsFair {ℓ} :
    {A : Type ℓ} (eng : Engine) (event : Event) (found : Option (List A))
    → All (IsFair event) (process_event eng event found).1.window_alerts
unfolding process_event
process_event-IsFair eng event found = apply_rules-IsFair eng.rules event eng.windows
