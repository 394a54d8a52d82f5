-- ===== src/RuleEngine/OnEvent/Laws.antt =====
-- Streams of events through `on_event` of app/services/rule_engine_v2.py.
use siem_sentinel_xv.Base.{
  ℕ, ℤ, ◌<◌, ◌≡◌, ◌≢◌, ◌⊎◌, refl, ◌∙◌, Bool, true, false, ◌||◌, Option, none, some, List, [], ◌∷◌,
  All, Bool-cases, inl, inr, ◌=ₛ◌,
}
use siem_sentinel_xv.Value.{Value}
use siem_sentinel_xv.RuleEngine.{Rule, Db, Services, Windows, Engine, GroupKey, BufItem}
use siem_sentinel_xv.RuleEngine.Bindings.{Gate, ignore, go_on}
use siem_sentinel_xv.RuleEngine.Index.{rules_at, sort_by_id, maybe_reload}
use siem_sentinel_xv.RuleEngine.Index.Laws.{
  IndexAll, rules_at-All, sort_by_id-All, maybe_reload-IndexAll,
}
use siem_sentinel_xv.RuleEngine.Turn.{
  turn, pass, conclude, judge, log_ignored, set_state, cools_down, state_of,
}
use siem_sentinel_xv.RuleEngine.Context.{Seen}
use siem_sentinel_xv.RuleEngine.Turn.Cooldown.{IsSpaced, turn-IsSpaced}
use siem_sentinel_xv.RuleEngine.OnEvent.{see, turns, on_event}

judge-rules :
    (services : Services) (ev : Seen) (rule : Rule) (j : GroupKey) (trusted : Bool)
    (dq : List BufItem) (db : Db) (ok : Option Bool) (n : Option ℤ)
    → (judge services ev rule j trusted dq db ok n).rules ≡ db.rules
unfolding judge set_state
judge-rules services ev rule j trusted dq db none n = refl
judge-rules services ev rule j trusted dq db (some false) n = refl
judge-rules services ev rule j trusted dq db (some true) none = refl
judge-rules services ev rule j trusted dq db (some true) (some n) = refl

conclude-rules :
    (services : Services) (ev : Seen) (rule : Rule) (j : GroupKey) (trusted : Bool)
    (dq : List BufItem) (db : Db)
    → (conclude services ev rule j trusted dq db).rules ≡ db.rules
unfolding conclude set_state
conclude-rules services ev rule j trusted dq db =
    elim (Bool-cases (cools_down rule (state_of j db) ev.ts)) [
      | inl y ↦ rw y
      | inr n ↦ rw n (judge-rules services ev rule j trusted dq db _ _)
    ]

pass-rules :
    (services : Services) (ev : Seen) (rule : Rule) (w : Windows) (db : Db) (g : Gate)
    (detected : Bool)
    → (pass services ev rule w db g detected).1.rules ≡ db.rules
unfolding pass log_ignored
pass-rules services ev rule w db (ignore reason value) detected = refl
pass-rules services ev rule w db (go_on trusted) false = refl
pass-rules services ev rule w db (go_on trusted) true =
    conclude-rules services ev rule _ trusted _ db

turn-rules :
    (services : Services) (ev : Seen) (rule : Rule) (w : Windows) (db : Db)
    → (turn services ev rule w db).1.rules ≡ db.rules
unfolding turn
turn-rules services ev rule w db = pass-rules services ev rule w db _ _

pub turns-rules :
    (services : Services) (ev : Seen) (rs : List Rule) (w : Windows) (db : Db)
    → (turns services ev rs w db).1.rules ≡ db.rules
unfolding turns
turns-rules services ev [] w db = refl
turns-rules services ev (r ∷ rs) w db =
    turns-rules services ev rs (turn services ev r w db).0 (turn services ev r w db).1
    ∙ turn-rules services ev r w db

-- The rule is another than the group's, or it has the cooldown.
abbrev pub HasCooldown : ℕ → GroupKey → Rule → Type 0
HasCooldown cooldown k rule = (rule.id ≢ k.rule_id) ⊎ (rule.cooldown_seconds ≡ cooldown)

cooldown_of :
    (cooldown : ℕ) (k : GroupKey) (rule : Rule)
    → HasCooldown cooldown k rule
    → rule.id ≡ k.rule_id
    → rule.cooldown_seconds ≡ cooldown
cooldown_of cooldown k rule (inl other) e = absurd (other e)
cooldown_of cooldown k rule (inr same) e = same

turns-IsSpaced :
    (services : Services) (ev : Seen) (k : GroupKey) (cooldown : ℕ) (rs : List Rule) (w : Windows)
    (db : Db)
    → 0 < cooldown
    → All (HasCooldown cooldown k) rs
    → IsSpaced cooldown k db
    → IsSpaced cooldown k (turns services ev rs w db).1
unfolding turns
turns-IsSpaced services ev k cooldown [] w db p a s = s
turns-IsSpaced services ev k cooldown (r ∷ rs) w db p a s =
    turns-IsSpaced services ev k cooldown rs (turn services ev r w db).0 (turn services ev r w db).1
      p a.1 (turn-IsSpaced services ev r k w db cooldown p (cooldown_of cooldown k r a.0) s)

-- Between two events: the rules of the database and of the index have the cooldown for the group, and
-- the group's alerts are spaced by it.
pub record IsSteady (cooldown : ℕ) (k : GroupKey) (eng : Engine) (db : Db) : Type 0 where
  pub rules_ok : All (HasCooldown cooldown k) db.rules
  pub index_ok : IndexAll (HasCooldown cooldown k) eng.index
  pub spaced : IsSpaced cooldown k db

on_event-IsSteady :
    (services : Services) (eng : Engine) (db : Db) (snap : Value) (ts now : ℕ) (k : GroupKey)
    (cooldown : ℕ)
    → 0 < cooldown
    → IsSteady cooldown k eng db
    → IsSteady cooldown k
        (on_event services eng db snap ts now).0
        (on_event services eng db snap ts now).1
unfolding on_event
on_event-IsSteady services eng db snap ts now k cooldown p s =
    let ev = see snap ts in
    let fresh = maybe_reload db now eng in
    let candidates = sort_by_id (rules_at (ev.source, ev.event_type) fresh.index) in
    let indexed = maybe_reload-IndexAll (HasCooldown cooldown k) db now eng s.rules_ok s.index_ok in
    let known =
      sort_by_id-All (HasCooldown cooldown k) _
        (rules_at-All (HasCooldown cooldown k) (ev.source, ev.event_type) fresh.index indexed) in
    elim (Bool-cases (ev.source =ₛ "" || ev.event_type =ₛ "")) [
      | inl y ↦ rw y (record { rules_ok = s.rules_ok; index_ok = indexed; spaced = s.spaced })
      | inr n ↦ rw n (record {
        rules_ok = rw (turns-rules services ev candidates fresh.windows db) s.rules_ok;
        index_ok = indexed;
        spaced = turns-IsSpaced services ev k cooldown candidates fresh.windows db p known s.spaced;
      })
    ]

-- An event of a stream: its document, its time, and the time of the clock when it is handled.
pub record Arrival : Type 0 where
  pub snap : Value
  pub ts : ℕ
  pub now : ℕ

-- The events of a stream, one after the other.
unfoldable pub feed : Services → Engine → Db → List Arrival → Engine × Db
feed services eng db [] = (eng, db)
feed services eng db (a ∷ rest) =
    let (eng', db', fired) = on_event services eng db a.snap a.ts a.now in
    feed services eng' db' rest

-- Whatever the events, in whatever order their times stand, and however often the rules are reloaded:
-- if every rule of the database and of the index that has the group's rule id has the cooldown, and it
-- is not 0, then every alert of that rule and group comes at least the cooldown after the one before
-- it, and the group's state remembers the last one.
pub feed-IsSteady :
    (services : Services) (eng : Engine) (db : Db) (arrivals : List Arrival) (k : GroupKey)
    (cooldown : ℕ)
    → 0 < cooldown
    → IsSteady cooldown k eng db
    → IsSteady cooldown k (feed services eng db arrivals).0 (feed services eng db arrivals).1
unfolding feed
feed-IsSteady services eng db [] k cooldown p s = s
feed-IsSteady services eng db (a ∷ rest) k cooldown p s =
    feed-IsSteady services (on_event services eng db a.snap a.ts a.now).0
      (on_event services eng db a.snap a.ts a.now).1 rest k cooldown p
      (on_event-IsSteady services eng db a.snap a.ts a.now k cooldown p s)
