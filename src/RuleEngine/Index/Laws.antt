-- ===== src/RuleEngine/Index/Laws.antt =====
-- What the index of the rules holds after `reload_rules` of app/services/rule_engine_v2.py.
use mathlib.Core.List.{append-nil, append_assoc}
use siem_sentinel_xv.Base.{
  ℕ, ◌≡◌, refl, ap, ◌∙◌, Bool, ◌||◌, List, String, [], ◌∷◌, ◌++◌, keep, All, All-append, leb,
  if◌then◌else◌, arith, eq_iff, Bool-cases, inl, inr,
}
use siem_sentinel_xv.RuleEngine.{Rule, Db, Engine, Index}
use siem_sentinel_xv.RuleEngine.Index.{
  same_pair, index_rule, rules_at, insert_by_id, sort_by_id, sort_index, key_of, index_from,
  reload_rules, maybe_reload, is_empty, is_due,
}

rules_at-index_rule :
    (j k : String × String) (r : Rule) (idx : Index)
    → rules_at k (index_rule j r idx)
      ≡ (if same_pair j k then rules_at k idx ++ r ∷ [] else rules_at k idx)
unfolding rules_at index_rule
rules_at-index_rule j k r [] = ground arith
rules_at-index_rule (a, b) (c, d) r (((x, y), rs) ∷ idx) = ground (
  arith,
  eq_iff x a,
  eq_iff y b,
  eq_iff x c,
  eq_iff y d,
  eq_iff a c,
  eq_iff b d,
  rules_at-index_rule (a, b) (c, d) r idx,
)

-- The rules that stand under a key.
abbrev pub under : String × String → Rule → Bool
under k r = same_pair (key_of r) k

rules_at-index_from :
    (k : String × String) (rs : List Rule) (idx : Index)
    → rules_at k (index_from rs idx) ≡ rules_at k idx ++ keep (under k) rs
unfolding index_from
rules_at-index_from k [] idx = rw append-nil
rules_at-index_from k (r ∷ rs) idx =
    rw
      (
        rules_at-index_from k rs (index_rule (key_of r) r idx),
        rules_at-index_rule (key_of r) k r idx,
      )
      (elim (Bool-cases (under k r)) [ inl y ↦ simp (y, append_assoc) | inr n ↦ simp n ])

rules_at-sort_index :
    (k : String × String) (idx : Index) → rules_at k (sort_index idx) ≡ sort_by_id (rules_at k idx)
unfolding rules_at sort_index sort_by_id
rules_at-sort_index k [] = refl
rules_at-sort_index k ((j, rs) ∷ idx) = ground (arith, rules_at-sort_index k idx)

-- After a reload the index gives, for a source and an event type, just the enabled rules of the
-- database whose own source and event type are those once they are normalised, by their ids.
pub reload_rules-rules_at :
    (db : Db) (now : ℕ) (eng : Engine) (k : String × String)
    → rules_at k (reload_rules db now eng).index
      ≡ sort_by_id (keep (under k) (keep (λ r. r.enabled) db.rules))
unfolding reload_rules
reload_rules-rules_at db now eng k =
    rules_at-sort_index k (index_from (keep (λ r. r.enabled) db.rules) [])
    ∙ ap sort_by_id (unfold rules_at in rules_at-index_from k (keep (λ r. r.enabled) db.rules) [])

-- What holds of every rule of an index.
abbrev pub IndexAll : (Rule → Type 0) → Index → Type 0
IndexAll P = All (λ e. All P e.1)

module _ (P : Rule → Type 0) where
  index_rule-IndexAll :
      (k : String × String) (r : Rule) (idx : Index)
      → P r
      → IndexAll P idx
      → IndexAll P (index_rule k r idx)
  unfolding index_rule
  index_rule-IndexAll k r [] p h = ((p, tt), tt)
  index_rule-IndexAll k r ((j, rs) ∷ idx) p h = elim (Bool-cases (same_pair j k)) [
    | inl y ↦ rw y (All-append P rs (r ∷ []) h.0 (p, tt), h.1)
    | inr n ↦ rw n (h.0, index_rule-IndexAll k r idx p h.1)
  ]

  index_from-IndexAll :
      (rs : List Rule) (idx : Index) → All P rs → IndexAll P idx → IndexAll P (index_from rs idx)
  unfolding index_from
  index_from-IndexAll [] idx a h = h
  index_from-IndexAll (r ∷ rs) idx a h =
      index_from-IndexAll rs (index_rule (key_of r) r idx) a.1
        (index_rule-IndexAll (key_of r) r idx a.0 h)

  insert_by_id-All : (r : Rule) (rs : List Rule) → P r → All P rs → All P (insert_by_id r rs)
  unfolding insert_by_id
  insert_by_id-All r [] p a = (p, tt)
  insert_by_id-All r (s ∷ rs) p a = elim (Bool-cases (leb r.id s.id)) [
    | inl y ↦ rw y (p, a)
    | inr n ↦ rw n (a.0, insert_by_id-All r rs p a.1)
  ]

  pub sort_by_id-All : (rs : List Rule) → All P rs → All P (sort_by_id rs)
  unfolding sort_by_id
  sort_by_id-All [] a = tt
  sort_by_id-All (r ∷ rs) a = insert_by_id-All r (sort_by_id rs) a.0 (sort_by_id-All rs a.1)

  sort_index-IndexAll : (idx : Index) → IndexAll P idx → IndexAll P (sort_index idx)
  unfolding sort_index
  sort_index-IndexAll [] h = tt
  sort_index-IndexAll ((k, rs) ∷ idx) h = (sort_by_id-All rs h.0, sort_index-IndexAll idx h.1)

  keep_enabled-All : (rs : List Rule) → All P rs → All P (keep (λ r. r.enabled) rs)
  keep_enabled-All [] a = tt
  keep_enabled-All (r ∷ rs) a = ground (arith, keep_enabled-All rs a.1)

  pub rules_at-All : (k : String × String) (idx : Index) → IndexAll P idx → All P (rules_at k idx)
  unfolding rules_at
  rules_at-All k [] h = tt
  rules_at-All k ((j, rs) ∷ idx) h = elim (Bool-cases (same_pair j k)) [
    | inl y ↦ rw y h.0
    | inr n ↦ rw n (rules_at-All k idx h.1)
  ]

  pub maybe_reload-IndexAll :
      (db : Db) (now : ℕ) (eng : Engine)
      → All P db.rules
      → IndexAll P eng.index
      → IndexAll P (maybe_reload db now eng).index
  unfolding maybe_reload reload_rules
  maybe_reload-IndexAll db now eng a h =
      elim (Bool-cases
        (is_empty eng.index || is_due eng.last_reload_at eng.reload_ttl_seconds now)) [
          | inl y ↦
              rw y
                (sort_index-IndexAll _ (index_from-IndexAll _ [] (keep_enabled-All db.rules a) tt))
          | inr n ↦ rw n h
        ]
