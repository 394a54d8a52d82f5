-- ===== src/RuleEngine/Turn/Effects.antt =====
-- What a turn touches, and what the exclusions of a rule come to.
use siem_sentinel_xv.Base.{
  ℤ, ◌≡◌, refl, Bool, true, false, Option, none, some, List, String, [], ◌∷◌, any, length, arith,
  Bool-cases, inl, inr, ◌+◌, length-append,
}
use siem_sentinel_xv.Text.{◌+ₛ◌}
use siem_sentinel_xv.Value.{Value, as_str}
use siem_sentinel_xv.Detection.Fields.{get_canonical_field}
use siem_sentinel_xv.Detection.Clause.{Lists}
use siem_sentinel_xv.RuleEngine.{Rule, Binding, GroupKey, Db, Services, Windows, BufItem, RuleState}
use siem_sentinel_xv.RuleEngine.Bindings.{
  Gate, ignore, go_on, gate, binds, bindings_of, first_exclusion, ignores_trust, or_text,
  exclusion_gate,
}
use siem_sentinel_xv.RuleEngine.Turn.{
  turn, pass, same_group, group_of, state_of, cools_down, conclude, judge, set_window, set_state,
  log_ignored, or_unknown, code_of,
}
use siem_sentinel_xv.RuleEngine.Context.{Seen}

-- A rule with no exclusion that the event meets has none that is found, and the other way round.
first_exclusion-any :
    (lists : Lists) (snap : Value) (bs : List Binding)
    → any (binds lists snap) bs ≡ true
    → (b : Binding) × (first_exclusion lists snap bs ≡ some b)
unfolding first_exclusion
first_exclusion-any lists snap [] h = absurd (ground arith)
first_exclusion-any lists snap (b ∷ bs) h = elim (Bool-cases (binds lists snap b)) [
  | inl y ↦ (b, rw y)
  | inr n ↦ rw n (first_exclusion-any lists snap bs (rw n at h))
]

gate-excluded :
    (services : Services) (snap : Value) (rule : Rule) (code fallback : String)
    → any (binds services.lists snap) (bindings_of "exclusion" rule) ≡ true
    → ignores_trust rule ≡ false
    → (reason : String) × (value : String) × (gate services snap rule code fallback
        ≡ ignore reason value)
unfolding gate exclusion_gate
gate-excluded services snap rule code fallback h i =
    let found = first_exclusion-any services.lists snap (bindings_of "exclusion" rule) h in
    (
      "exclusion_binding:" +ₛ found.0.list_name,
      or_text (as_str (get_canonical_field snap found.0.match_field)) fallback,
      rw (found.1, i),
    )

-- If any active exclusion of the rule meets the event, and the rule does not ignore trust, its turn
-- leaves the windows, the states and the alerts as they are, and adds one line to the log of ignored
-- events: the exclusions are alternatives.
pub turn-excluded :
    (services : Services) (ev : Seen) (rule : Rule) (w : Windows) (db : Db)
    → any (binds services.lists ev.snap) (bindings_of "exclusion" rule) ≡ true
    → ignores_trust rule ≡ false
    → ((turn services ev rule w db).0 ≡ w)
      × ((turn services ev rule w db).1.states ≡ db.states)
      × ((turn services ev rule w db).1.alerts ≡ db.alerts)
      × (length (turn services ev rule w db).1.ignored ≡ length db.ignored + 1)
unfolding turn pass log_ignored
turn-excluded services ev rule w db h i =
    let shut = gate-excluded services ev.snap rule (code_of rule) (or_unknown ev.ip) h i in
    rw shut.2 (refl, refl, refl, length-append db.ignored _)

set_state-other :
    (j k : GroupKey) (st : RuleState) (db : Db)
    → same_group j k ≡ false
    → (set_state j st db).states k ≡ db.states k
unfolding set_state
set_state-other j k st db h = rw h

judge-other :
    (services : Services) (ev : Seen) (rule : Rule) (j k : GroupKey) (trusted : Bool)
    (dq : List BufItem) (db : Db)
    → same_group j k ≡ false
    → (ok : Option Bool) (n : Option ℤ)
    → (judge services ev rule j trusted dq db ok n).states k ≡ db.states k
unfolding judge
judge-other services ev rule j k trusted dq db h none n = set_state-other j k _ db h
judge-other services ev rule j k trusted dq db h (some false) n = set_state-other j k _ db h
judge-other services ev rule j k trusted dq db h (some true) none = set_state-other j k _ db h
judge-other services ev rule j k trusted dq db h (some true) (some n) = set_state-other j k _ db h

conclude-other :
    (services : Services) (ev : Seen) (rule : Rule) (j k : GroupKey) (trusted : Bool)
    (dq : List BufItem) (db : Db)
    → same_group j k ≡ false
    → (conclude services ev rule j trusted dq db).states k ≡ db.states k
unfolding conclude
conclude-other services ev rule j k trusted dq db h =
    elim (Bool-cases (cools_down rule (state_of j db) ev.ts)) [
      | inl y ↦ rw y (set_state-other j k _ db h)
      | inr n ↦ rw n (judge-other services ev rule j k trusted dq db h _ _)
    ]

pass-other :
    (services : Services) (ev : Seen) (rule : Rule) (k : GroupKey) (w : Windows) (db : Db)
    → same_group (group_of ev rule) k ≡ false
    → (g : Gate) (detected : Bool)
    → ((pass services ev rule w db g detected).0 k ≡ w k)
      × ((pass services ev rule w db g detected).1.states k ≡ db.states k)
unfolding pass set_window log_ignored
pass-other services ev rule k w db h (ignore reason value) detected = (refl, refl)
pass-other services ev rule k w db h (go_on trusted) false = (refl, refl)
pass-other services ev rule k w db h (go_on trusted) true =
    (rw h, conclude-other services ev rule _ k trusted _ db h)

-- The turn of a rule leaves the window and the state of every rule and group other than the event's
-- group under the rule as they are.
pub turn-other :
    (services : Services) (ev : Seen) (rule : Rule) (k : GroupKey) (w : Windows) (db : Db)
    → same_group (group_of ev rule) k ≡ false
    → ((turn services ev rule w db).0 k ≡ w k)
      × ((turn services ev rule w db).1.states k ≡ db.states k)
unfolding turn
turn-other services ev rule k w db h = pass-other services ev rule k w db h _ _
