-- ===== src/RuleEngine/Turn/Cooldown.antt =====
-- The alerts of one rule and group are a cooldown apart.
use siem_sentinel_xv.Base.{
  ℕ, ◌+◌, ◌*◌, ◌≤◌, ◌<◌, ◌≡◌, ◌⊎◌, refl, sym, subst, ap, ◌∙◌, Bool, true, false, Option, none, some,
  List, String, [], ◌∷◌, ◌++◌, if◌then◌else◌, arith, eq_iff, Bool-cases, inl, inr, ℤ,
}
use siem_sentinel_xv.RuleEngine.{Rule, BufItem, GroupKey, RuleState, Alert, Db, Services, Windows}
use siem_sentinel_xv.RuleEngine.Bindings.{Gate, ignore, go_on}
use siem_sentinel_xv.RuleEngine.Turn.{
  same_group, set_state, state_of, cools_down, judge, conclude, pass, turn, log_ignored, alert_for,
}
use siem_sentinel_xv.RuleEngine.Context.{Seen}

abbrev pub alert_key : Alert → GroupKey
alert_key a = record { rule_id = a.rule_id; group_key = a.group_key }

-- The time of the last alert of a rule and group.
abbrev pub last_from : GroupKey → Option ℕ → List Alert → Option ℕ
last_from k prev [] = prev
last_from k prev (a ∷ alerts) =
    last_from k (if same_group k (alert_key a) then some a.triggered_at else prev) alerts

abbrev pub IsApart : ℕ → Option ℕ → ℕ → Type 0
IsApart cooldown none t = Unit
IsApart cooldown (some prev) t = prev + cooldown * 1000000 ≤ t

-- Every alert of the rule and group is at least a cooldown later than the one before it.
abbrev pub SpacedFrom : ℕ → GroupKey → Option ℕ → List Alert → Type 0
SpacedFrom cooldown k prev [] = Unit
SpacedFrom cooldown k prev (a ∷ alerts) =
    ((same_group k (alert_key a) ≡ false) ⊎ IsApart cooldown prev a.triggered_at)
    × SpacedFrom cooldown k (if same_group k (alert_key a) then some a.triggered_at else prev)
        alerts

-- The state of the rule and group remembers its last alert, and the alerts are spaced.
pub record IsSpaced (cooldown : ℕ) (k : GroupKey) (db : Db) : Type 0 where
  pub spaced : SpacedFrom cooldown k none db.alerts
  pub remembered : (state_of k db).last_alert_at ≡ last_from k none db.alerts

SpacedFrom-append :
    (cooldown : ℕ) (k : GroupKey) (prev : Option ℕ) (alerts : List Alert) (a : Alert)
    → SpacedFrom cooldown k prev alerts
    → (same_group k (alert_key a) ≡ true
        → IsApart cooldown (last_from k prev alerts) a.triggered_at)
    → SpacedFrom cooldown k prev (alerts ++ a ∷ [])
SpacedFrom-append cooldown k prev [] a s h =
    (elim (Bool-cases (same_group k (alert_key a))) [ inl y ↦ inr (h y) | inr n ↦ inl n ], tt)
SpacedFrom-append cooldown k prev (b ∷ alerts) a s h = (
  s.0,
  SpacedFrom-append cooldown k (if same_group k (alert_key b) then some b.triggered_at else prev)
      alerts a s.1 h,
)

last_from-append :
    (k : GroupKey) (prev : Option ℕ) (alerts : List Alert) (a : Alert)
    → last_from k prev (alerts ++ a ∷ [])
      ≡ (if same_group k (alert_key a) then some a.triggered_at else last_from k prev alerts)
last_from-append k prev [] a = refl
last_from-append k prev (b ∷ alerts) a =
    last_from-append k (if same_group k (alert_key b) then some b.triggered_at else prev) alerts a

same_group-eq : (k j : GroupKey) → same_group k j ≡ true → k ≡ j
same_group-eq k j h = ground (arith, eq_iff k.group_key j.group_key)

same_group-sym : (k j : GroupKey) → same_group k j ≡ same_group j k
same_group-sym k j = ground (arith, eq_iff k.group_key j.group_key, eq_iff j.group_key k.group_key)

pub state_of-set_state :
    (j k : GroupKey) (st : RuleState) (db : Db)
    → state_of k (set_state j st db) ≡ (if same_group j k then st else state_of k db)
unfolding state_of set_state
state_of-set_state j k st db = ground arith

state_of-alerted :
    (j k : GroupKey) (st : RuleState) (db : Db) (alerts : List Alert)
    → state_of k (record (set_state j st db) { alerts = alerts })
      ≡ (if same_group j k then st else state_of k db)
unfolding state_of set_state
state_of-alerted j k st db alerts = ground arith

-- A state may change in all but the time of its last alert.
set_state-IsSpaced :
    (cooldown : ℕ) (k j : GroupKey) (st : RuleState) (db : Db)
    → st.last_alert_at ≡ (state_of j db).last_alert_at
    → IsSpaced cooldown k db
    → IsSpaced cooldown k (set_state j st db)
unfolding set_state
set_state-IsSpaced cooldown k j st db e s = record {
  spaced = s.spaced;
  remembered = elim (Bool-cases (same_group j k)) [
    | inl y ↦
        rw (state_of-set_state j k st db, y)
          (e ∙ ap (λ g. (state_of g db).last_alert_at) (same_group-eq j k y) ∙ s.remembered)
    | inr n ↦ rw (state_of-set_state j k st db, n) s.remembered
  ];
}

-- An alert may come a cooldown after the last one of its rule and group.
alert-IsSpaced :
    (cooldown : ℕ) (k : GroupKey) (a : Alert) (st : RuleState) (db : Db)
    → st.last_alert_at ≡ some a.triggered_at
    → (k ≡ alert_key a → IsApart cooldown (state_of k db).last_alert_at a.triggered_at)
    → IsSpaced cooldown k db
    → IsSpaced cooldown k (record (set_state (alert_key a) st db) { alerts = db.alerts ++ a ∷ [] })
alert-IsSpaced cooldown k a st db e h s = record {
  spaced =
      SpacedFrom-append cooldown k none db.alerts a s.spaced
        (λ y. rw s.remembered at (h (same_group-eq k (alert_key a) y)));
  remembered =
      rw
        (
          last_from-append k none db.alerts a,
          state_of-alerted (alert_key a) k st db (db.alerts ++ a ∷ []),
        )
        (elim (Bool-cases (same_group k (alert_key a))) [
          | inl y ↦ rw (same_group-sym (alert_key a) k, y) e
          | inr n ↦ rw (same_group-sym (alert_key a) k, n) s.remembered
        ]);
}

judge-IsSpaced :
    (services : Services) (ev : Seen) (rule : Rule) (k : GroupKey) (group : String) (trusted : Bool)
    (dq : List BufItem) (db : Db) (cooldown : ℕ)
    → (k ≡ record { rule_id = rule.id; group_key = group }
        → IsApart cooldown (state_of k db).last_alert_at ev.ts)
    → IsSpaced cooldown k db
    → (ok : Option Bool) (n : Option ℤ)
    → IsSpaced cooldown k (
        judge services ev rule (record { rule_id = rule.id; group_key = group }) trusted dq db ok n)
unfolding judge
judge-IsSpaced services ev rule k group trusted dq db cooldown h s none n =
    set_state-IsSpaced cooldown k _ _ db refl s
judge-IsSpaced services ev rule k group trusted dq db cooldown h s (some false) n =
    set_state-IsSpaced cooldown k _ _ db refl s
judge-IsSpaced services ev rule k group trusted dq db cooldown h s (some true) none =
    set_state-IsSpaced cooldown k _ _ db refl s
judge-IsSpaced services ev rule k group trusted dq db cooldown h s (some true) (some n) =
    unfold alert_for in
    alert-IsSpaced cooldown k (alert_for services ev rule group trusted dq n) _ db refl h s

cools_down-IsApart :
    (rule : Rule) (st : RuleState) (ts cooldown : ℕ)
    → 0 < cooldown
    → rule.cooldown_seconds ≡ cooldown
    → cools_down rule st ts ≡ false
    → IsApart cooldown st.last_alert_at ts
unfolding cools_down
cools_down-IsApart rule st ts cooldown p c n = ground arith

-- A rule that does not cool down had its last alert a cooldown ago.
state_of-IsApart :
    (rule : Rule) (k j : GroupKey) (db : Db) (ts cooldown : ℕ)
    → 0 < cooldown
    → (rule.id ≡ k.rule_id → rule.cooldown_seconds ≡ cooldown)
    → cools_down rule (state_of j db) ts ≡ false
    → j.rule_id ≡ rule.id
    → k ≡ j
    → IsApart cooldown (state_of k db).last_alert_at ts
state_of-IsApart rule k j db ts cooldown p c n r e =
    cools_down-IsApart rule (state_of k db) ts cooldown p
      (c (sym (ap (λ (g : GroupKey). g.rule_id) e ∙ r)))
      (subst (λ g. cools_down rule (state_of g db) ts ≡ false) (sym e) n)

conclude-IsSpaced :
    (services : Services) (ev : Seen) (rule : Rule) (k : GroupKey) (group : String) (trusted : Bool)
    (dq : List BufItem) (db : Db) (cooldown : ℕ)
    → 0 < cooldown
    → (rule.id ≡ k.rule_id → rule.cooldown_seconds ≡ cooldown)
    → IsSpaced cooldown k db
    → IsSpaced cooldown k
        (conclude services ev rule (record { rule_id = rule.id; group_key = group }) trusted dq db)
unfolding conclude
conclude-IsSpaced services ev rule k group trusted dq db cooldown p c s =
    let j : GroupKey = record { rule_id = rule.id; group_key = group } in
    elim (Bool-cases (cools_down rule (state_of j db) ev.ts)) [
      | inl y ↦ rw y (set_state-IsSpaced cooldown k j _ db refl s)
      | inr n ↦ rw n (
          judge-IsSpaced services ev rule k group trusted dq db cooldown
            (state_of-IsApart rule k j db ev.ts cooldown p c n refl) s _ _)
    ]

log_ignored-IsSpaced :
    (ev : Seen) (rule : Rule) (reason value : String) (k : GroupKey) (db : Db) (cooldown : ℕ)
    → IsSpaced cooldown k db
    → IsSpaced cooldown k (log_ignored ev rule reason value db)
unfolding log_ignored state_of
log_ignored-IsSpaced ev rule reason value k db cooldown s = record {
  spaced = s.spaced;
  remembered = s.remembered;
}

pass-IsSpaced :
    (services : Services) (ev : Seen) (rule : Rule) (k : GroupKey) (w : Windows) (db : Db)
    (cooldown : ℕ)
    → 0 < cooldown
    → (rule.id ≡ k.rule_id → rule.cooldown_seconds ≡ cooldown)
    → IsSpaced cooldown k db
    → (g : Gate) (detected : Bool) → IsSpaced cooldown k (pass services ev rule w db g detected).1
unfolding pass
pass-IsSpaced services ev rule k w db cooldown p c s (ignore reason value) detected =
    log_ignored-IsSpaced ev rule reason value k db cooldown s
pass-IsSpaced services ev rule k w db cooldown p c s (go_on trusted) false = s
pass-IsSpaced services ev rule k w db cooldown p c s (go_on trusted) true =
    conclude-IsSpaced services ev rule k _ trusted _ db cooldown p c s

-- If the rule has the cooldown in case it is the rule of the group, its turn keeps the group's alerts
-- spaced by the cooldown.
pub turn-IsSpaced :
    (services : Services) (ev : Seen) (rule : Rule) (k : GroupKey) (w : Windows) (db : Db)
    (cooldown : ℕ)
    → 0 < cooldown
    → (rule.id ≡ k.rule_id → rule.cooldown_seconds ≡ cooldown)
    → IsSpaced cooldown k db
    → IsSpaced cooldown k (turn services ev rule w db).1
unfolding turn
turn-IsSpaced services ev rule k w db cooldown p c s =
    pass-IsSpaced services ev rule k w db cooldown p c s _ _
