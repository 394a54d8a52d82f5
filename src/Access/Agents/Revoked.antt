-- ===== src/Access/Agents/Revoked.antt =====
-- What a key of an agent is good for: app/services/agent_api_key_service.py.
use siem_sentinel_xv.Base.{
  ℕ, ◌≡◌, ◌≢◌, refl, ◌∙◌, sym, Bool, false, Option, some, List, String, [], ◌∷◌, find_first,
  update_first, All, All-append, ◌=ₛ◌, arith, eq_iff, Bool-cases, inl, inr,
}
use siem_sentinel_xv.Access.Agents.{
  AgentApiKey, hash_key_secret, create_agent_api_key, judge_key, judged, validate_agent_api_key,
  revoke, revoke_agent_api_key,
}

-- The rows of one id are revoked.
abbrev pub Revoked : String → List AgentApiKey → Type 0
Revoked id keys = All (λ k. k.id ≡ id → k.status ≡ "revoked") keys

-- What may happen to the keys: one is made, with an id of its own, one is used at some time, one is
-- revoked.
pub data Step (sha256 : String → String) (id : String)
    : List AgentApiKey → List AgentApiKey → Type 0 where
  create :
      (keys : List AgentApiKey) (token new name tenant : String) (agent : Option String)
      (expires : Option ℕ)
      → new ≢ id
      → Step sha256 id keys (create_agent_api_key sha256 token new name tenant agent expires keys).1
  validate :
      (keys : List AgentApiKey) (now : ℕ) (raw_key : String)
      → Step sha256 id keys (validate_agent_api_key sha256 now raw_key keys).0
  withdraw :
      (keys : List AgentApiKey) (other : String)
      → Step sha256 id keys (revoke_agent_api_key other keys).0

pub data Steps (sha256 : String → String) (id : String) (from : List AgentApiKey)
    : List AgentApiKey → Type 0 where
  here : Steps sha256 id from from
  next :
      {keys later : List AgentApiKey}
      → Steps sha256 id from keys
      → Step sha256 id keys later
      → Steps sha256 id from later

update_first-Revoked :
    (id : String) (p : AgentApiKey → Bool) (f : AgentApiKey → AgentApiKey) (keys : List AgentApiKey)
    → ((k : AgentApiKey)
        → (k.id ≡ id → k.status ≡ "revoked")
        → (f k).id ≡ id
        → (f k).status ≡ "revoked")
    → Revoked id keys
    → Revoked id (update_first p f keys)
update_first-Revoked id p f [] h r = tt
update_first-Revoked id p f (k ∷ keys) h r = elim (Bool-cases (p k)) [
  | inl y ↦ rw y (h k r.0, r.1)
  | inr n ↦ rw n (r.0, update_first-Revoked id p f keys h r.1)
]

judge_key-id : (now : ℕ) (k : AgentApiKey) → (judge_key now k).0.id ≡ k.id
unfolding judge_key
judge_key-id now k = ground arith

judge_key_revoked :
    (now : ℕ) (k : AgentApiKey) → k.status ≡ "revoked" → (judge_key now k).0.status ≡ "revoked"
unfolding judge_key
judge_key_revoked now k h =
    let off : (k.status =ₛ "active") ≡ false = rw h refl in rw (off, judge_key) h

validate_agent_api_key-Revoked :
    (sha256 : String → String) (id : String) (now : ℕ) (raw_key : String) (keys : List AgentApiKey)
    → Revoked id keys
    → Revoked id (validate_agent_api_key sha256 now raw_key keys).0
unfolding validate_agent_api_key
validate_agent_api_key-Revoked sha256 id now raw_key keys r = elim (Bool-cases (raw_key =ₛ "")) [
  | inl y ↦ rw y r
  | inr n ↦ rw n (
      update_first-Revoked id (λ k. k.key_hash =ₛ hash_key_secret sha256 raw_key)
        (λ k. (judge_key now k).0) keys
        (λ k h e. judge_key_revoked now k (h (sym (judge_key-id now k) ∙ e))) r)
]

Step-Revoked :
    {sha256 : String → String} {id : String} {keys later : List AgentApiKey}
    → Step sha256 id keys later
    → Revoked id keys
    → Revoked id later
unfolding create_agent_api_key revoke_agent_api_key
Step-Revoked {id = id} (create keys token new name tenant agent expires ne) r =
    All-append (λ k. k.id ≡ id → k.status ≡ "revoked") keys _ r ((λ e. absurd (ne e)), tt)
Step-Revoked {sha256} {id} (validate keys now raw_key) r =
    validate_agent_api_key-Revoked sha256 id now raw_key keys r
Step-Revoked {id = id} (withdraw keys other) r =
    update_first-Revoked id (λ k. k.id =ₛ other) revoke keys (λ k h e. refl) r

Steps-Revoked :
    {sha256 : String → String} {id : String} {keys later : List AgentApiKey}
    → Steps sha256 id keys later
    → Revoked id keys
    → Revoked id later
Steps-Revoked here r = r
Steps-Revoked (next steps step) r = Step-Revoked step (Steps-Revoked steps r)

-- At most one row has the id.
abbrev pub Single : String → List AgentApiKey → Type 0
Single id [] = Unit {0}
Single id (k ∷ keys) = (k.id ≡ id → All (λ j. j.id ≢ id) keys) × Single id keys

Revoked-others :
    (id : String) (keys : List AgentApiKey) → All (λ j. j.id ≢ id) keys → Revoked id keys
Revoked-others id [] h = tt
Revoked-others id (k ∷ keys) h = ((λ e. absurd (h.0 e)), Revoked-others id keys h.1)

revoke_agent_api_key-Revoked :
    (id : String) (keys : List AgentApiKey)
    → Single id keys
    → Revoked id (revoke_agent_api_key id keys).0
unfolding revoke_agent_api_key
revoke_agent_api_key-Revoked id [] s = tt
revoke_agent_api_key-Revoked id (k ∷ keys) s = elim (Bool-cases (k.id =ₛ id)) [
  | inl y ↦ rw y ((λ e. refl), Revoked-others id keys (s.0 ((eq_iff k.id id).0 y)))
  | inr n ↦
      rw n ((λ e. ground (arith, (eq_iff k.id id).1 e)), revoke_agent_api_key-Revoked id keys s.1)
]

judged-source :
    (now : ℕ) (j k : AgentApiKey)
    → judged now (some j) ≡ some k
    → (j.status ≡ "active") × (k.id ≡ j.id)
unfolding judge_key
judged-source now j k h = ground (arith, eq_iff j.status "active")

judged-Revoked :
    (now : ℕ) (id : String) (p : AgentApiKey → Bool) (keys : List AgentApiKey) (k : AgentApiKey)
    → Revoked id keys
    → judged now (find_first p keys) ≡ some k
    → k.id ≢ id
judged-Revoked now id p [] k r h = absurd (cc)
judged-Revoked now id p (j ∷ keys) k r h = elim (Bool-cases (p j)) [
  | inl y ↦
      λ e. let found = judged-source now j k (rw y at h) in cc (r.0 (sym found.1 ∙ e), found.0)
  | inr n ↦ judged-Revoked now id p keys k r.1 (rw n at h)
]

-- A key that is revoked, its id being its row's alone, is never valid again: whatever keys with other
-- ids are made, used or revoked after it, no text that a client sends at any time is accepted as that key.
pub revoke_agent_api_key-IsFinal :
    (sha256 : String → String) (id : String) (keys later : List AgentApiKey) (now : ℕ)
    (raw_key : String) (k : AgentApiKey)
    → Single id keys
    → Steps sha256 id (revoke_agent_api_key id keys).0 later
    → (validate_agent_api_key sha256 now raw_key later).1 ≡ some k
    → k.id ≢ id
unfolding validate_agent_api_key
revoke_agent_api_key-IsFinal sha256 id keys later now raw_key k single steps h =
    let r = Steps-Revoked steps (revoke_agent_api_key-Revoked id keys single) in
    elim (Bool-cases (raw_key =ₛ "")) [
      | inl y ↦ absurd (cc)
      | inr n ↦
          judged-Revoked now id (λ j. j.key_hash =ₛ hash_key_secret sha256 raw_key) later k r
            (rw n at h)
    ]
