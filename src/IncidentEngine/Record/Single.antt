-- ===== src/IncidentEngine/Record/Single.antt =====
-- What `IncidentEngine.run` of app/services/incident_engine.py keeps true of the incidents: one at most
-- is open for a rule's code and an entity, and scores lie within 0 and 100.
use siem_sentinel_xv.Base.{
  ℕ, ◌==◌, pos, ◌≤ℤ◌, ◌≡◌, ◌≢◌, refl, sym, ◌∙◌, Bool, false, ◌&&◌, Option, none, some, List, String,
  [], ◌∷◌, ◌++◌, map, All, All-append, ◌=ₛ◌, if◌then◌else◌, arith, Bool-cases, inl, inr,
}
use siem_sentinel_xv.Value.{Fields}
use siem_sentinel_xv.IncidentEngine.{IncidentRule, Incident, IncidentDb}
use siem_sentinel_xv.IncidentEngine.Record.{
  Aggregate, is_open, is_for, latest, later, update_incident, new_incident, write_incident,
  score_of,
}

-- Both are open, and of one code and entity.
unfoldable pub are_rivals : Incident → Incident → Bool
are_rivals i j =
    is_open i.status
    && is_open j.status
    && i.code =ₛ j.code
    && i.primary_entity_type =ₛ j.primary_entity_type
    && i.primary_entity_key =ₛ j.primary_entity_key

abbrev pub IsSingle : List Incident → Type 0
IsSingle [] = Unit
IsSingle (i ∷ incs) = All (λ j. are_rivals i j ≡ false) incs × IsSingle incs

abbrev pub IsScore : Incident → Type 0
IsScore i = (pos 0 ≤ℤ i.score) × (i.score ≤ℤ pos 100)

pub record IsSound (incs : List Incident) : Type 0 where
  pub single : IsSingle incs
  pub scores : All IsScore incs

later-some : (i : Incident) (found : Option Incident) → later i found ≢ none
later-some i none e = absurd (ground arith)
later-some i (some j) e = absurd (ground arith)

latest-none :
    (p : Incident → Bool) (incs : List Incident)
    → latest p incs ≡ none
    → All (λ i. p i ≡ false) incs
unfolding latest
latest-none p [] h = tt
latest-none p (i ∷ incs) h = elim (Bool-cases (p i)) [
  | inl y ↦ absurd (later-some i (latest p incs) (rw y at h))
  | inr n ↦ (n, latest-none p incs (rw n at h))
]

append-IsSingle :
    (incs : List Incident) (j : Incident)
    → IsSingle incs
    → All (λ i. are_rivals i j ≡ false) incs
    → IsSingle (incs ++ j ∷ [])
append-IsSingle [] j s h = (tt, tt)
append-IsSingle (i ∷ incs) j s h = (
  All-append (λ k. are_rivals i k ≡ false) incs (j ∷ []) s.0 (h.0, tt),
  append-IsSingle incs j s.1 h.1,
)

score_bounds : (rule : IncidentRule) → (pos 0 ≤ℤ score_of rule) × (score_of rule ≤ℤ pos 100)
unfolding score_of
score_bounds rule = ground arith

new-rivals :
    (rule : IncidentRule) (group : String) (gv : Fields) (entity : String) (agg : Aggregate)
    (id : ℕ) (incs : List Incident)
    → All (λ i. is_for rule entity i ≡ false) incs
    → All (λ i. are_rivals i (new_incident rule group gv entity agg id) ≡ false) incs
unfolding is_for are_rivals new_incident
new-rivals rule group gv entity agg id [] h = tt
new-rivals rule group gv entity agg id (i ∷ incs) h =
    (ground arith, new-rivals rule group gv entity agg id incs h.1)

module _ (rule : IncidentRule) (agg : Aggregate) (id : ℕ) where
  abbrev updated : Incident → Incident
  updated i = if i.id == id then update_incident rule agg i else i

  are_rivals-updated : (i j : Incident) → are_rivals (updated i) (updated j) ≡ are_rivals i j
  unfolding are_rivals update_incident
  are_rivals-updated i j = ground arith

  updated-rivals :
      (i : Incident) (incs : List Incident)
      → All (λ j. are_rivals i j ≡ false) incs
      → All (λ j. are_rivals (updated i) j ≡ false) (map updated incs)
  updated-rivals i [] h = tt
  updated-rivals i (j ∷ incs) h = (are_rivals-updated i j ∙ h.0, updated-rivals i incs h.1)

  updated-IsSingle : (incs : List Incident) → IsSingle incs → IsSingle (map updated incs)
  updated-IsSingle [] s = tt
  updated-IsSingle (i ∷ incs) s = (updated-rivals i incs s.0, updated-IsSingle incs s.1)

  updated-IsScore : (i : Incident) → IsScore i → IsScore (updated i)
  unfolding update_incident
  updated-IsScore i s = ground (arith, score_bounds rule)

  updated-scores : (incs : List Incident) → All IsScore incs → All IsScore (map updated incs)
  updated-scores [] s = tt
  updated-scores (i ∷ incs) s = (updated-IsScore i s.0, updated-scores incs s.1)

write_incident-IsSound :
    (rule : IncidentRule) (group : String) (gv : Fields) (entity : String) (agg : Aggregate)
    (db : IncidentDb) (found : Option Incident)
    → found ≡ latest (is_for rule entity) db.incidents
    → IsSound db.incidents
    → IsSound (write_incident rule group gv entity agg db found).0.incidents
unfolding write_incident
write_incident-IsSound rule group gv entity agg db none e s = record {
  single = append-IsSingle db.incidents _ s.single (
      new-rivals rule group gv entity agg db.next_id db.incidents
        (latest-none (is_for rule entity) db.incidents (sym e)));
  scores =
      All-append IsScore db.incidents (_ ∷ []) s.scores
        (unfold new_incident in score_bounds rule, tt);
}
write_incident-IsSound rule group gv entity agg db (some old) e s = record {
  single = updated-IsSingle rule agg old.id db.incidents s.single;
  scores = updated-scores rule agg old.id db.incidents s.scores;
}

-- Whatever the group's alerts: writing its incident, made where none is open for the rule and the
-- entity and updated where one is, keeps one open incident at most for each code and entity, and
-- every score within 0 and 100.
pub enrolled-IsSound :
    (rule : IncidentRule) (group : String) (gv : Fields) (entity : String) (agg : Aggregate)
    (db : IncidentDb)
    → IsSound db.incidents
    → IsSound
        (write_incident rule group gv entity agg db
          (latest (is_for rule entity) db.incidents)).0.incidents
enrolled-IsSound rule group gv entity agg db s =
    write_incident-IsSound rule group gv entity agg db _ refl s
