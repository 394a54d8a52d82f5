-- ===== src/RuleEngine/Index.antt =====
-- The index of the rules: `reload_rules`, `_maybe_reload` and `invalidate_cache` of
-- app/services/rule_engine_v2.py. Sorting is by the rule's id and stable.
pub mod Laws
use siem_sentinel_xv.Base.{
  ℕ, ◌+◌, ◌*◌, Bool, true, false, not, ◌&&◌, ◌||◌, Option, none, some, List, String, [], ◌∷◌, ◌++◌,
  keep, leb, ◌=ₛ◌, if◌then◌else◌,
}
use siem_sentinel_xv.Text.{strip, lower}
use siem_sentinel_xv.Detection.Source.{norm_source}
use siem_sentinel_xv.RuleEngine.{Rule, Db, Engine, Index}

-- `_norm_event_type`
unfoldable pub norm_event_type : String → String
norm_event_type v = lower (strip v)

abbrev pub same_pair : String × String → String × String → Bool
same_pair (a, b) (c, d) = a =ₛ c && b =ₛ d

-- idx[k].append(r)
unfoldable pub index_rule : String × String → Rule → Index → Index
index_rule k r [] = (k, r ∷ []) ∷ []
index_rule k r ((j, rs) ∷ idx) =
    if same_pair j k then (j, rs ++ r ∷ []) ∷ idx else (j, rs) ∷ index_rule k r idx

-- self._index.get(k, [])
unfoldable pub rules_at : String × String → Index → List Rule
rules_at k [] = []
rules_at k ((j, rs) ∷ idx) = if same_pair j k then rs else rules_at k idx

unfoldable pub insert_by_id : Rule → List Rule → List Rule
insert_by_id r [] = r ∷ []
insert_by_id r (s ∷ rs) = if leb r.id s.id then r ∷ s ∷ rs else s ∷ insert_by_id r rs

-- sorted(rules, key=lambda rr: int(rr.id))
unfoldable pub sort_by_id : List Rule → List Rule
sort_by_id [] = []
sort_by_id (r ∷ rs) = insert_by_id r (sort_by_id rs)

unfoldable pub sort_index : Index → Index
sort_index [] = []
sort_index ((k, rs) ∷ idx) = (k, sort_by_id rs) ∷ sort_index idx

abbrev pub key_of : Rule → String × String
key_of r = (norm_source r.source, norm_event_type r.event_type)

unfoldable pub index_from : List Rule → Index → Index
index_from [] idx = idx
index_from (r ∷ rs) idx = index_from rs (index_rule (key_of r) r idx)

-- `reload_rules`, at a time of the clock
unfoldable pub reload_rules : Db → ℕ → Engine → Engine
reload_rules db now eng = record eng {
  index = sort_index (index_from (keep (λ r. r.enabled) db.rules) []);
  last_reload_at = some now;
}

abbrev pub is_empty : Index → Bool
is_empty [] = true
is_empty _ = false

-- `now - last >= ttl`, the time since the last load
abbrev pub is_due : Option ℕ → ℕ → ℕ → Bool
is_due none ttl now = true
is_due (some last) ttl now = leb (last + ttl * 1000000) now

-- `_maybe_reload`
unfoldable pub maybe_reload : Db → ℕ → Engine → Engine
maybe_reload db now eng =
    if is_empty eng.index || is_due eng.last_reload_at eng.reload_ttl_seconds now
    then reload_rules db now eng
    else eng

-- `invalidate_cache`
unfoldable pub invalidate_cache : Engine → Engine
invalidate_cache eng = record eng { last_reload_at = none }
