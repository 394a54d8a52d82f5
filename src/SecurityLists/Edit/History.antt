-- ===== src/SecurityLists/Edit/History.antt =====
-- The lines of audit of app/services/security_list_service.py as the history of the lists.
use siem_sentinel_xv.Base.{
  ℕ, suc, ◌<◌, ◌==◌, ◌≡◌, refl, sym, ap, ◌∙◌, Bool, true, false, not, Option, none, some, List,
  String, [], ◌∷◌, ◌++◌, keep, find_first, update_first, All, All-append, arith, Bool-cases,
  Option-cases, inl, inr, if◌then◌else◌, keep-append, append-nil,
}
use siem_sentinel_xv.SecurityLists.{Entry, Audit, Db}
use siem_sentinel_xv.SecurityLists.Edit.{
  State, Creation, entry_of, create_entry, Changes, changed, Author, has_id, write, update_found,
  update_entry, not_of, delete_row, delete_found, delete_entry, toggle_found, toggle_entry,
}

-- An entry takes the place of the one with its id, or comes last.
abbrev pub upsert : Entry → List Entry → List Entry
upsert e [] = e ∷ []
upsert e (x ∷ xs) = let rest = upsert e xs in if has_id e.id x then e ∷ xs else x ∷ rest

abbrev pub apply : Option Entry → List Entry → List Entry
apply none es = es
apply (some e) es = upsert e es

-- The entries that lines of audit tell of, in the order of the lines.
abbrev pub replay : List Audit → List Entry → List Entry
replay [] es = es
replay (a ∷ lines) es = replay lines (apply a.new_value es)

-- A line is about the entry whose new state it has.
abbrev Names : Option Entry → ℕ → Type 0
Names none id = Unit
Names (some e) id = e.id ≡ id

record IsRecorded (db : Db) : Type 0 where
  replayed : replay db.audits [] ≡ db.entries
  named : All (λ a. Names a.new_value a.entry_id) db.audits
  below : All (λ e. e.id < db.next_id) db.entries

replay-append :
    (lines bs : List Audit) (es : List Entry)
    → replay (lines ++ bs) es ≡ replay bs (replay lines es)
replay-append [] bs es = refl
replay-append (a ∷ lines) bs es = replay-append lines bs (apply a.new_value es)

upsert_fresh :
    (e : Entry) (es : List Entry) → All (λ x. x.id < e.id) es → upsert e es ≡ es ++ e ∷ []
upsert_fresh e [] h = refl
upsert_fresh e (x ∷ xs) h = ground (arith, upsert_fresh e xs)

below-suc : (n : ℕ) (es : List Entry) → All (λ e. e.id < n) es → All (λ e. e.id < suc n) es
below-suc n [] h = tt
below-suc n (e ∷ es) h = (omega arith, below-suc n es h.1)

upsert-update_first :
    (e old : Entry) (id : ℕ) (es : List Entry)
    → e.id ≡ id
    → find_first (has_id id) es ≡ some old
    → upsert e es ≡ update_first (has_id e.id) (λ _. e) es
upsert-update_first e old id [] h f = cc
upsert-update_first e old id (x ∷ xs) h f = ground (arith, upsert-update_first e old id xs)

update_first-below :
    (n : ℕ) (e : Entry) (es : List Entry)
    → All (λ x. x.id < n) es
    → All (λ x. x.id < n) (update_first (has_id e.id) (λ _. e) es)
update_first-below n e [] h = tt
update_first-below n e (x ∷ xs) h = ground (arith, update_first-below n e xs)

keep-below :
    (n : ℕ) (p : Entry → Bool) (es : List Entry)
    → All (λ x. x.id < n) es
    → All (λ x. x.id < n) (keep p es)
keep-below n p [] h = tt
keep-below n p (x ∷ xs) h = ground (arith, keep-below n p xs)

keep-named :
    (p : Audit → Bool) (lines : List Audit)
    → All (λ a. Names a.new_value a.entry_id) lines
    → All (λ a. Names a.new_value a.entry_id) (keep p lines)
keep-named p [] h = tt
keep-named p (a ∷ lines) h = ground (arith, keep-named p lines)

abbrev without : ℕ → List Entry → List Entry
without id es = keep (λ e. not (has_id id e)) es

without-upsert_same : (e : Entry) (es : List Entry) → without e.id (upsert e es) ≡ without e.id es
without-upsert_same e [] = ground arith
without-upsert_same e (x ∷ xs) = ground (arith, without-upsert_same e xs)

without-upsert :
    (id : ℕ) (e : Entry) (es : List Entry)
    → has_id id e ≡ false
    → without id (upsert e es) ≡ upsert e (without id es)
without-upsert id e [] h = ground arith
without-upsert id e (x ∷ xs) h = ground (arith, without-upsert id e xs)

without-apply_same :
    (id i : ℕ) (v : Option Entry) (es : List Entry)
    → Names v i
    → (i == id) ≡ true
    → without id (apply v es) ≡ without id es
without-apply_same id i none es h y = refl
without-apply_same id i (some e) es h y =
    let same : e.id ≡ id = ground arith in rw (← same) (without-upsert_same e es)

without-apply :
    (id i : ℕ) (v : Option Entry) (es : List Entry)
    → Names v i
    → (i == id) ≡ false
    → apply v (without id es) ≡ without id (apply v es)
without-apply id i none es h n = refl
without-apply id i (some e) es h n = sym (without-upsert id e es (ground arith))

-- Without the lines about an entry, the lines tell of all the entries but this one.
replay-without :
    (id : ℕ) (lines : List Audit) (es : List Entry)
    → All (λ a. Names a.new_value a.entry_id) lines
    → replay (keep (not_of id) lines) (without id es) ≡ without id (replay lines es)
replay-without id [] es h = refl
replay-without id (a ∷ lines) es h = elim (Bool-cases (a.entry_id == id)) [
  | inl y ↦ rw y (
      rw (← without-apply_same id a.entry_id a.new_value es h.0 y)
        (replay-without id lines (apply a.new_value es) h.1))
  | inr n ↦ rw n (
      rw (without-apply id a.entry_id a.new_value es h.0 n)
        (replay-without id lines (apply a.new_value es) h.1))
]

find_first-below :
    (n id : ℕ) (e : Entry) (es : List Entry)
    → All (λ x. x.id < n) es
    → find_first (has_id id) es ≡ some e
    → (e.id ≡ id) × (e.id < n)
find_first-below n id e [] h f = cc
find_first-below n id e (x ∷ xs) h f = ground (arith, find_first-below n id e xs)

write-IsRecorded :
    (db : Db) (old new : Entry) (a : Audit) (id : ℕ)
    → find_first (has_id id) db.entries ≡ some old
    → new.id ≡ id
    → a.entry_id ≡ id
    → a.new_value ≡ some new
    → IsRecorded db
    → IsRecorded (write new a db)
unfolding write
write-IsRecorded db old new a id f i j v r = record {
  replayed =
      replay-append db.audits (a ∷ []) []
      ∙ rw (v, r.replayed) (upsert-update_first new old id db.entries i f);
  named =
      All-append (λ b. Names b.new_value b.entry_id) db.audits (a ∷ []) r.named
        (rw v (i ∙ sym j, tt));
  below = update_first-below db.next_id new db.entries r.below;
}

delete_row-IsRecorded :
    (db : Db) (a : Audit) (id : ℕ)
    → a.entry_id ≡ id
    → IsRecorded db
    → IsRecorded (delete_row id (record db { audits = db.audits ++ a ∷ [] }))
unfolding delete_row
delete_row-IsRecorded db a id i r =
    let gone : keep (not_of id) (a ∷ []) ≡ [] = ground arith in
    let kept : keep (not_of id) (db.audits ++ a ∷ []) ≡ keep (not_of id) db.audits =
      keep-append (not_of id) db.audits (a ∷ []) ∙ rw gone (append-nil _) in
    record {
      replayed = rw kept (replay-without id db.audits [] r.named ∙ ap (without id) r.replayed);
      named = rw kept (keep-named (not_of id) db.audits r.named);
      below = keep-below db.next_id (λ e. not (has_id id e)) db.entries r.below;
    }

create_entry-IsRecorded :
    (now : ℕ) (c : Creation) (s : State) → IsRecorded s.db → IsRecorded (create_entry now c s).0.db
unfolding create_entry
create_entry-IsRecorded now c s r = record {
  replayed =
      replay-append s.db.audits (_ ∷ []) []
      ∙ rw r.replayed (upsert_fresh (entry_of s.db.next_id c) s.db.entries r.below);
  named = All-append (λ b. Names b.new_value b.entry_id) s.db.audits (_ ∷ []) r.named (refl, tt);
  below =
      All-append (λ e. e.id < suc s.db.next_id) s.db.entries (entry_of s.db.next_id c ∷ [])
        (below-suc s.db.next_id s.db.entries r.below) (omega arith, tt);
}

changed-id :
    (show_time : ℕ → String) (d : Changes) (e : Entry) → (changed show_time d e).0.id ≡ e.id
unfolding changed
changed-id show_time d e = refl

update_entry-IsRecorded :
    (show_time : ℕ → String) (now id : ℕ) (d : Changes) (by : Author) (s : State)
    → IsRecorded s.db
    → IsRecorded (update_entry show_time now id d by s).0.db
unfolding update_entry update_found
update_entry-IsRecorded show_time now id d by s r =
    elim (Option-cases (find_first (has_id id) s.db.entries)) [
      | inl n ↦ rw n r
      | inr (e, y) ↦
          let same : (changed show_time d e).0.id ≡ id =
            changed-id show_time d e
            ∙ (find_first-below s.db.next_id id e s.db.entries r.below y).0 in
          rw y (write-IsRecorded s.db e _ _ id y same same refl r)
    ]

toggle_entry-IsRecorded :
    (now id : ℕ) (enabled : Option Bool) (by : Author) (s : State)
    → IsRecorded s.db
    → IsRecorded (toggle_entry now id enabled by s).0.db
unfolding toggle_entry toggle_found
toggle_entry-IsRecorded now id enabled by s r =
    elim (Option-cases (find_first (has_id id) s.db.entries)) [
      | inl n ↦ rw n r
      | inr (e, y) ↦
          let same = (find_first-below s.db.next_id id e s.db.entries r.below y).0 in
          rw y (write-IsRecorded s.db e _ _ id y same same refl r)
    ]

delete_entry-IsRecorded :
    (now id : ℕ) (by : Author) (s : State)
    → IsRecorded s.db
    → IsRecorded (delete_entry now id by s).0.db
unfolding delete_entry delete_found
delete_entry-IsRecorded now id by s r = elim (Option-cases (find_first (has_id id) s.db.entries)) [
  | inl n ↦ rw n r
  | inr (e, y) ↦ rw y (delete_row-IsRecorded s.db _ e.id refl r)
]

-- One write of the lists, by whoever and whenever.
pub data Step : State → State → Type 0 where
  created : (now : ℕ) (c : Creation) (s : State) → Step s (create_entry now c s).0
  updated :
      (show_time : ℕ → String) (now id : ℕ) (d : Changes) (by : Author) (s : State)
      → Step s (update_entry show_time now id d by s).0
  toggled :
      (now id : ℕ) (enabled : Option Bool) (by : Author) (s : State)
      → Step s (toggle_entry now id enabled by s).0
  deleted : (now id : ℕ) (by : Author) (s : State) → Step s (delete_entry now id by s).0

-- What writes make of some lists.
pub data Writes (from : State) : State → Type 0 where
  here : Writes from from
  next : {s later : State} → Writes from s → Step s later → Writes from later

Step-IsRecorded : {s later : State} → Step s later → IsRecorded s.db → IsRecorded later.db
Step-IsRecorded (created now c s) r = create_entry-IsRecorded now c s r
Step-IsRecorded (updated show_time now id d by s) r =
    update_entry-IsRecorded show_time now id d by s r
Step-IsRecorded (toggled now id enabled by s) r = toggle_entry-IsRecorded now id enabled by s r
Step-IsRecorded (deleted now id by s) r = delete_entry-IsRecorded now id by s r

Writes-IsRecorded : {s later : State} → Writes s later → IsRecorded s.db → IsRecorded later.db
Writes-IsRecorded here r = r
Writes-IsRecorded (next w step) r = Step-IsRecorded step (Writes-IsRecorded w r)

abbrev pub Empty : State → Type 0
Empty s = (s.db.entries ≡ []) × (s.db.audits ≡ [])

Empty-IsRecorded : (s : State) → Empty s → IsRecorded s.db
Empty-IsRecorded s e = record {
  replayed = rw e.0 (rw e.1 refl);
  named = rw e.1 tt;
  below = rw e.0 tt;
}

-- Whatever is created, updated, switched and deleted in lists that were empty, in any order and by
-- anybody, the lines of audit that are left tell the whole of the table: each line's new state put in the
-- place of the entry with its id, from the first line to the last, gives just the entries that are there.
pub replay-audits :
    (s later : State) → Empty s → Writes s later → replay later.db.audits [] ≡ later.db.entries
replay-audits s later e w = (Writes-IsRecorded w (Empty-IsRecorded s e)).replayed
