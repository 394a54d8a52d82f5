-- ===== src/SecurityLists/Edit/Cache.antt =====
-- What the cache of app/services/security_list_service.py holds: how old it may be, and that a write is seen.
use siem_sentinel_xv.Base.{
  ℕ, ◌+◌, ◌*◌, ◌≤◌, ◌<◌, ◌≡◌, ◌≢◌, refl, true, false, ◌&&◌, Option, none, some, List, String, [],
  ◌∷◌, ◌++◌, keep, All, All-keep, Member, Member-keep, Member-map, Member-append_right, arith,
  eq_iff, Bool-cases, inl, inr,
}
use siem_sentinel_xv.Text.{strip}
use siem_sentinel_xv.SecurityLists.{Entry, Db, Service, is_live, is_due, ensure_cache}
use siem_sentinel_xv.SecurityLists.Query.{serves, is_named, is_filled, get_list_by_name}
use siem_sentinel_xv.SecurityLists.Edit.{State, Creation, entry_of, create_entry}

-- The entries of the cache were live when they were loaded.
abbrev LiveAt : Option ℕ → List Entry → Type 0
LiveAt none es = Unit
LiveAt (some t) es = All (λ e. is_live t e ≡ true) es

pub record IsLoaded (s : Service) : Type 0 where
  pub live : LiveAt s.last_load s.cache_entries

ensure_cache-IsLoaded :
    (db : Db) (now : ℕ) (s : Service)
    → db.readable ≡ true
    → IsLoaded s
    → IsLoaded (ensure_cache db now s)
unfolding ensure_cache
ensure_cache-IsLoaded db now s r h = elim (Bool-cases (is_due s.ttl_seconds now s.last_load)) [
  | inl y ↦ rw (y, r) (record { live = All-keep (is_live now) db.entries })
  | inr n ↦ rw n h
]

-- Not past its time by as much as the time to live.
abbrev pub IsFresh : ℕ → ℕ → Entry → Type 0
IsFresh ttl now e = (e.enabled ≡ true) × ((t : ℕ) → e.expires_at ≡ some t → now < t + ttl * 1000000)

live-IsFresh :
    (ttl last now : ℕ) (e : Entry)
    → is_live last e ≡ true
    → now ≤ last + ttl * 1000000
    → IsFresh ttl now e
live-IsFresh ttl last now e h k = (ground arith, λ t x. ground arith)

All-IsFresh :
    (ttl last now : ℕ) (es : List Entry)
    → now ≤ last + ttl * 1000000
    → All (λ e. is_live last e ≡ true) es
    → All (IsFresh ttl now) es
All-IsFresh ttl last now [] k h = tt
All-IsFresh ttl last now (e ∷ es) k h =
    (live-IsFresh ttl last now e h.0 k, All-IsFresh ttl last now es k h.1)

kept-IsFresh :
    (ttl now : ℕ) (last : Option ℕ) (es : List Entry)
    → LiveAt last es
    → is_due ttl now last ≡ false
    → All (IsFresh ttl now) es
kept-IsFresh ttl now none es h n = cc
kept-IsFresh ttl now (some t) es h n = All-IsFresh ttl t now es (ground arith) h

-- A cache that was loaded from the rows, whenever that was, gives out nothing stale while the database can
-- be read: what a question at some time is answered from is again such a cache, and each entry in it is
-- enabled and has run out less than the time to live ago, if at all.
pub ensure_cache-IsFresh :
    (db : Db) (now : ℕ) (s : Service)
    → db.readable ≡ true
    → IsLoaded s
    → IsLoaded (ensure_cache db now s)
      × All (IsFresh s.ttl_seconds now) (ensure_cache db now s).cache_entries
unfolding ensure_cache
ensure_cache-IsFresh db now s r h = (
  ensure_cache-IsLoaded db now s r h,
  elim (Bool-cases (is_due s.ttl_seconds now s.last_load)) [
    | inl y ↦
        rw (y, r)
          (All-IsFresh s.ttl_seconds now now (keep (is_live now) db.entries) (omega arith)
            (All-keep (is_live now) db.entries))
    | inr n ↦ rw n (kept-IsFresh s.ttl_seconds now s.last_load s.cache_entries h.live n)
  ],
)

-- An entry of a named list is seen as soon as it is created: at whatever later time the list is asked
-- for, before the entry runs out and for a tenant that it serves, its value is among the list's.
pub get_list_by_name-create_entry :
    (now later : ℕ) (c : Creation) (s : State) (name tenant_id : String)
    → s.db.readable ≡ true
    → is_live later (entry_of s.db.next_id c) ≡ true
    → serves tenant_id (entry_of s.db.next_id c) ≡ true
    → is_named name (entry_of s.db.next_id c) ≡ true
    → strip (strip c.value) ≢ ""
    → Member (strip (strip c.value)) (
        get_list_by_name name tenant_id
          (ensure_cache
            (create_entry now c s).0.db
            later
            (create_entry now c s).0.service).cache_entries)
unfolding create_entry ensure_cache get_list_by_name
get_list_by_name-create_entry now later c s name tenant_id r live serves_it named filled =
    let e = entry_of s.db.next_id c in
    let p = λ (x : Entry). serves tenant_id x && is_named name x in
    let rows = s.db.entries ++ e ∷ [] in
    let in_cache : Member e (keep (is_live later) rows) =
      Member-keep (is_live later) e rows live
        (Member-append_right e s.db.entries (e ∷ []) (inl refl)) in
    let asked : Member e (keep p (keep (is_live later) rows)) =
      Member-keep p e _ (ground arith) in_cache in
    rw r (
      Member-keep is_filled (strip e.value) _ (ground (arith, eq_iff (strip (strip c.value)) ""))
        (Member-map (λ (x : Entry). strip x.value) e _ asked))
