-- ===== src/Correlation/Engine/Rules.antt =====
-- `register_rule` of app/services/correlation_engine.py, and the rules that are switched off.
use siem_sentinel_xv.Base.{
  ◌≡◌, refl, ◌≢◌, not, Option, List, String, [], ◌∷◌, ◌++◌, All, All-append, keep, ◌=ₛ◌, arith,
  eq_iff, Bool-cases, inl, inr,
}
use siem_sentinel_xv.Correlation.Rule.{DetectionRule}
use siem_sentinel_xv.Correlation.Engine.{
  Engine, Event, Windows, register_rule, apply_rules, process_event,
}
use siem_sentinel_xv.Correlation.Engine.Windows.{IsDistinct}

others :
    (id : String) (rules : List DetectionRule)
    → All (λ r. r.id ≢ id) (keep (λ r. not (r.id =ₛ id)) rules)
others id [] = tt
others id (r ∷ rules) = ground (arith, eq_iff r.id id, others id rules)

keep-All :
    (P : DetectionRule → Type 0) (id : String) (rules : List DetectionRule)
    → All P rules
    → All P (keep (λ r. not (r.id =ₛ id)) rules)
keep-All P id [] h = tt
keep-All P id (r ∷ rules) h = ground (arith, keep-All P id rules h.1)

keep-IsDistinct :
    (id : String) (rules : List DetectionRule)
    → IsDistinct rules
    → IsDistinct (keep (λ r. not (r.id =ₛ id)) rules)
keep-IsDistinct id [] d = tt
keep-IsDistinct id (r ∷ rules) d =
    ground (arith, keep-All (λ s. r.id ≢ s.id) id rules d.0, keep-IsDistinct id rules d.1)

append-IsDistinct :
    (rules : List DetectionRule) (rule : DetectionRule)
    → IsDistinct rules
    → All (λ r. r.id ≢ rule.id) rules
    → IsDistinct (rules ++ rule ∷ [])
append-IsDistinct [] rule d h = (tt, tt)
append-IsDistinct (r ∷ rules) rule d h = (
  All-append (λ s. r.id ≢ s.id) rules (rule ∷ []) d.0 (h.0, tt),
  append-IsDistinct rules rule d.1 h.1,
)

-- Registering a rule keeps the rules' ids distinct: a rule of the same id is replaced.
pub register_rule-IsDistinct :
    (rule : DetectionRule) (eng : Engine)
    → IsDistinct eng.rules
    → IsDistinct (register_rule rule eng).rules
unfolding register_rule
register_rule-IsDistinct rule eng d =
    append-IsDistinct (keep (λ r. not (r.id =ₛ rule.id)) eng.rules) rule
      (keep-IsDistinct rule.id eng.rules d) (others rule.id eng.rules)

enabled-apply_rules :
    (rules : List DetectionRule) (event : Event) (w : Windows)
    → apply_rules (keep (λ r. r.enabled) rules) event w ≡ apply_rules rules event w
unfolding apply_rules
enabled-apply_rules [] event w = refl
enabled-apply_rules (r ∷ rules) event w = elim (Bool-cases r.enabled) [
  | inl e ↦ simp (e, enabled-apply_rules rules event)
  | inr e ↦ simp (e, enabled-apply_rules rules event w)
]

-- A rule that is switched off has no part in what an event does: the windows and the alerts are those
-- of the engine without such rules.
pub process_event-enabled {ℓ} :
    {A : Type ℓ} (eng : Engine) (event : Event) (found : Option (List A))
    → (process_event (record eng { rules = keep (λ r. r.enabled) eng.rules }) event found).1
      ≡ (process_event eng event found).1
unfolding process_event
process_event-enabled eng event found = rw (enabled-apply_rules eng.rules event eng.windows)
