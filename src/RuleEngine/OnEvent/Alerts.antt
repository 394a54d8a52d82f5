-- ===== src/RuleEngine/OnEvent/Alerts.antt =====
-- The alerts that a stream of events leaves through `on_event` of app/services/rule_engine_v2.py.
use siem_sentinel_xv.Base.{
  ℕ, ℤ, Bool, true, false, ◌||◌, Option, none, some, List, [], ◌∷◌, All, All-append, Bool-cases,
  inl, inr, ◌=ₛ◌, arith, String,
}
use siem_sentinel_xv.Value.{Value, end}
use siem_sentinel_xv.RuleEngine.{
  Rule, Alert, Db, Services, Windows, Engine, GroupKey, BufItem, Adjustment,
}
use siem_sentinel_xv.RuleEngine.Bindings.{Gate, ignore, go_on, bindings_of}
use siem_sentinel_xv.RuleEngine.Bindings.Severity.{IsBounded, apply_contexts-IsGraded}
use siem_sentinel_xv.RuleEngine.Window.Counts.{AreBounded, measure-AreBounded}
use siem_sentinel_xv.RuleEngine.Index.{rules_at, sort_by_id, maybe_reload}
use siem_sentinel_xv.RuleEngine.Index.Laws.{
  IndexAll, rules_at-All, sort_by_id-All, maybe_reload-IndexAll,
}
use siem_sentinel_xv.RuleEngine.Turn.{
  turn, pass, conclude, judge, log_ignored, set_state, cools_down, state_of, alert_for, severity_of,
}
use siem_sentinel_xv.RuleEngine.Context.{Seen}
use siem_sentinel_xv.RuleEngine.OnEvent.{see, turns, on_event}
use siem_sentinel_xv.RuleEngine.OnEvent.Laws.{turns-rules, feed, Arrival}

-- The severity of an alert and the result of each adjustment of it are within 0 and 30, and its numbers
-- are bounded by its count.
pub record IsSound (a : Alert) : Type 0 where
  pub graded : IsBounded a.severity
  pub adjusted : All (λ (j : Adjustment). IsBounded j.result) a.severity_adjustments
  pub counted : AreBounded a.metrics

abbrev pub IsRated : Rule → Type 0
IsRated rule = IsBounded rule.severity

severity_of-IsBounded : (rule : Rule) → IsRated rule → IsBounded (severity_of rule)
severity_of-IsBounded rule h = ground arith

alert_for-IsSound :
    (services : Services) (ev : Seen) (rule : Rule) (group : String) (trusted : Bool)
    (dq : List BufItem) (n : ℤ)
    → IsRated rule
    → IsSound (alert_for services ev rule group trusted dq n)
unfolding alert_for
alert_for-IsSound services ev rule group trusted dq n h =
    let g =
      apply_contexts-IsGraded services.lists ev.snap (bindings_of "context" rule)
        (record { severity = severity_of rule; metadata = end; adjustments = [] })
        (severity_of-IsBounded rule h, tt) in
    record { graded = g.0; adjusted = g.1; counted = measure-AreBounded dq }

judge-AreSound :
    (services : Services) (ev : Seen) (rule : Rule) (k : GroupKey) (trusted : Bool)
    (dq : List BufItem) (db : Db) (met : Option Bool) (n : Option ℤ)
    → IsRated rule
    → All IsSound db.alerts
    → All IsSound (judge services ev rule k trusted dq db met n).alerts
unfolding judge set_state
judge-AreSound services ev rule k trusted dq db none n h s = s
judge-AreSound services ev rule k trusted dq db (some false) n h s = s
judge-AreSound services ev rule k trusted dq db (some true) none h s = s
judge-AreSound services ev rule k trusted dq db (some true) (some n) h s =
    All-append IsSound db.alerts _ s
      (alert_for-IsSound services ev rule k.group_key trusted dq n h, tt)

conclude-AreSound :
    (services : Services) (ev : Seen) (rule : Rule) (k : GroupKey) (trusted : Bool)
    (dq : List BufItem) (db : Db)
    → IsRated rule
    → All IsSound db.alerts
    → All IsSound (conclude services ev rule k trusted dq db).alerts
unfolding conclude set_state
conclude-AreSound services ev rule k trusted dq db h s =
    elim (Bool-cases (cools_down rule (state_of k db) ev.ts)) [
      | inl y ↦ rw y s
      | inr n ↦ rw n (judge-AreSound services ev rule k trusted dq db _ _ h s)
    ]

pass-AreSound :
    (services : Services) (ev : Seen) (rule : Rule) (w : Windows) (db : Db) (g : Gate)
    (detected : Bool)
    → IsRated rule
    → All IsSound db.alerts
    → All IsSound (pass services ev rule w db g detected).1.alerts
unfolding pass log_ignored
pass-AreSound services ev rule w db (ignore reason value) detected h s = s
pass-AreSound services ev rule w db (go_on trusted) false h s = s
pass-AreSound services ev rule w db (go_on trusted) true h s =
    conclude-AreSound services ev rule _ trusted _ db h s

turns-AreSound :
    (services : Services) (ev : Seen) (rs : List Rule) (w : Windows) (db : Db)
    → All IsRated rs
    → All IsSound db.alerts
    → All IsSound (turns services ev rs w db).1.alerts
unfolding turns turn
turns-AreSound services ev [] w db h s = s
turns-AreSound services ev (r ∷ rs) w db h s =
    turns-AreSound services ev rs (turn services ev r w db).0 (turn services ev r w db).1 h.1
      (pass-AreSound services ev r w db _ _ h.0 s)

-- Between two events: the rules' severities are within 0 and 30, and the alerts are sound.
pub record AreSound (eng : Engine) (db : Db) : Type 0 where
  pub rules_ok : All IsRated db.rules
  pub index_ok : IndexAll IsRated eng.index
  pub alerts_ok : All IsSound db.alerts

on_event-AreSound :
    (services : Services) (eng : Engine) (db : Db) (snap : Value) (ts now : ℕ)
    → AreSound eng db
    → AreSound (on_event services eng db snap ts now).0 (on_event services eng db snap ts now).1
unfolding on_event
on_event-AreSound services eng db snap ts now s =
    let ev = see snap ts in
    let fresh = maybe_reload db now eng in
    let candidates = sort_by_id (rules_at (ev.source, ev.event_type) fresh.index) in
    let indexed = maybe_reload-IndexAll IsRated db now eng s.rules_ok s.index_ok in
    let rated =
      sort_by_id-All IsRated _
        (rules_at-All IsRated (ev.source, ev.event_type) fresh.index indexed) in
    elim (Bool-cases (ev.source =ₛ "" || ev.event_type =ₛ "")) [
      | inl y ↦ rw y (record { rules_ok = s.rules_ok; index_ok = indexed; alerts_ok = s.alerts_ok })
      | inr n ↦ rw n (record {
        rules_ok = rw (turns-rules services ev candidates fresh.windows db) s.rules_ok;
        index_ok = indexed;
        alerts_ok = turns-AreSound services ev candidates fresh.windows db rated s.alerts_ok;
      })
    ]

-- Whatever the events and however often the rules are reloaded: if the severities of all rules, of the
-- database and of the index, are within 0 and 30 and the alerts that are there are sound, then all alerts
-- are after the events: the severity and each adjustment of it is within 0 and 30, and the numbers of
-- distinct addresses, users, servers, paths and networks, of the busiest network's events, and of the
-- failures and successes together are at most that of the window's events.
pub feed-AreSound :
    (services : Services) (eng : Engine) (db : Db) (arrivals : List Arrival)
    → AreSound eng db
    → AreSound (feed services eng db arrivals).0 (feed services eng db arrivals).1
unfolding feed
feed-AreSound services eng db [] s = s
feed-AreSound services eng db (a ∷ rest) s =
    feed-AreSound services (on_event services eng db a.snap a.ts a.now).0
      (on_event services eng db a.snap a.ts a.now).1 rest
      (on_event-AreSound services eng db a.snap a.ts a.now s)
