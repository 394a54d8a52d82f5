-- ===== src/Ingest/Tenant.antt =====
-- What the ingest of app/routers/ingest_v1.py sends, and what it answers.
use siem_sentinel_xv.Base.{
  ℕ, suc, true, false, ◌+◌, ◌≡◌, ◌≢◌, refl, sym, ap, ◌∙◌, ltb, ◌==◌, Option, none, some, List,
  String, [], ◌∷◌, ◌++◌, map, length, append-nil, append_assoc, length-append, length-map, All,
  All-append, arith, eq_iff, Bool-cases, Option-cases, inl, inr, some_inj, subst,
}
use siem_sentinel_xv.Http.{ok}
use siem_sentinel_xv.Access.Context.{AuthContext}
use siem_sentinel_xv.Ingest.{
  NormalizedEvent, Answer, raised, acknowledged, Broker, NatsService, connect, unavailable, message,
  after_publish, publish_normalized_event, accepted_ack, error_ack, stamp, Progress, account,
  publish_all, BatchAck, batch_response, ingest_batch_events,
}

-- What is sent carries a tenant.
abbrev pub Sent : Type 0
Sent = String × String × NormalizedEvent

abbrev pub OfTenant : String → List Sent → Type 0
OfTenant tenant out = All (λ m. m.2.tenant_id ≡ tenant) out

-- What a list has beyond another.
abbrev pub Extends : List Sent → List Sent → (List Sent → Type 0) → Type 0
Extends before later P = (new : List Sent) × (later ≡ before ++ new) × P new

-- What a service has sent beyond what it had sent, with an acknowledgement or without.
abbrev pub Sends : NatsService → NatsService → (List Sent → Type 0) → Type 0
Sends before later P =
    Extends before.sent later.sent P × Extends before.unacknowledged later.unacknowledged P

connect-sent : (b : Broker) (s : NatsService) → (connect b s).sent ≡ s.sent
unfolding connect
connect-sent b s = ground arith

connect-unacknowledged :
    (b : Broker) (s : NatsService) → (connect b s).unacknowledged ≡ s.unacknowledged
unfolding connect
connect-unacknowledged b s = ground arith

Extends-same : (t : String) (s r : List Sent) → r ≡ s → Extends s r (OfTenant t)
Extends-same t s r h = ([], h ∙ sym (append-nil s), tt)

Sends-same : (t : String) (s : NatsService) → Sends s s (OfTenant t)
Sends-same t s =
    (Extends-same t s.sent s.sent refl, Extends-same t s.unacknowledged s.unacknowledged refl)

connect-sends : (t : String) (b : Broker) (s : NatsService) → Sends s (connect b s) (OfTenant t)
connect-sends t b s = (
  Extends-same t s.sent (connect b s).sent (connect-sent b s),
  Extends-same t s.unacknowledged (connect b s).unacknowledged (connect-unacknowledged b s),
)

Extends-trans :
    (t : String) (a b c : List Sent)
    → Extends a b (OfTenant t)
    → Extends b c (OfTenant t)
    → Extends a c (OfTenant t)
Extends-trans t a b c (one, e, p) (two, f, q) = (
  one ++ two,
  f ∙ ap (λ x. x ++ two) e ∙ append_assoc a one two,
  All-append (λ m. m.2.tenant_id ≡ t) one two p q,
)

Sends-trans :
    (t : String) (a b c : NatsService)
    → Sends a b (OfTenant t)
    → Sends b c (OfTenant t)
    → Sends a c (OfTenant t)
Sends-trans t a b c (h, k) (h', k') = (
  Extends-trans t a.sent b.sent c.sent h h',
  Extends-trans t a.unacknowledged b.unacknowledged c.unacknowledged k k',
)

after_publish-sends :
    (t : String) (e : NormalizedEvent) (s : NatsService) (a : Answer)
    → e.tenant_id ≡ t
    → Sends s (after_publish e s a).0 (OfTenant t)
after_publish-sends t e s (raised true) h =
    (Extends-same t s.sent s.sent refl, (message e ∷ [], refl, (h, tt)))
after_publish-sends t e s (raised false) h = (Extends-same t s.sent s.sent refl, ([], refl, tt))
after_publish-sends t e s (acknowledged stream seq) h =
    ((message e ∷ [], refl, (h, tt)), Extends-same t s.unacknowledged s.unacknowledged refl)

publish_normalized_event-sends :
    (t : String) (b : Broker) (e : NormalizedEvent) (s : NatsService)
    → e.tenant_id ≡ t
    → Sends s (publish_normalized_event b e s).0 (OfTenant t)
unfolding publish_normalized_event
publish_normalized_event-sends t b e s h = elim (Bool-cases (connect b s).connected) [
  | inl y ↦ rw y (
      Sends-trans t s (connect b s)
        (after_publish e (connect b s) (b.answers (connect b s).messages)).0 (connect-sends t b s)
        (after_publish-sends t e (connect b s) (b.answers (connect b s).messages) h))
  | inr n ↦ rw n (connect-sends t b s)
]

publish_all-sends :
    (t : String) (b : Broker) (es : List NormalizedEvent) (s : NatsService) (p : Option Progress)
    → All (λ e. e.tenant_id ≡ t) es
    → Sends s (publish_all b es s p).0 (OfTenant t)
unfolding publish_all
publish_all-sends t b [] s p h = Sends-same t s
publish_all-sends t b (e ∷ es) s none h = Sends-same t s
publish_all-sends t b (e ∷ es) s (some p) h =
    let r = publish_normalized_event b e s in
    Sends-trans t s r.0 (publish_all b es r.0 (account e r.1 p)).0
      (publish_normalized_event-sends t b e s h.0)
      (publish_all-sends t b es r.0 (account e r.1 p) h.1)

stamp-tenant :
    (ctx : AuthContext) (es : List NormalizedEvent)
    → ctx.tenant_id ≢ ""
    → ctx.tenant_id ≢ "default"
    → All (λ e. e.tenant_id ≡ ctx.tenant_id) (map (stamp ctx) es)
unfolding stamp
stamp-tenant ctx [] h k = tt
stamp-tenant ctx (e ∷ es) h k = (
  ground (arith, eq_iff ctx.tenant_id "", eq_iff ctx.tenant_id "default"),
  stamp-tenant ctx es h k,
)

-- Whatever a caller with a tenant of its own sends in a batch, and however the batch ends, an error
-- half way included, all that goes to the broker beyond what had gone before, acknowledged or not, is of
-- the caller's tenant.
pub ingest_batch_events-OfTenant :
    (b : Broker) (max_batch : ℕ) (ctx : AuthContext) (events : List NormalizedEvent)
    (s : NatsService)
    → ctx.tenant_id ≢ ""
    → ctx.tenant_id ≢ "default"
    → Sends s (ingest_batch_events b max_batch ctx events s).0 (OfTenant ctx.tenant_id)
unfolding ingest_batch_events
ingest_batch_events-OfTenant b max_batch ctx events s h k = elim (Bool-cases (length events == 0)) [
  | inl y ↦ rw y (Sends-same ctx.tenant_id s)
  | inr n ↦ elim (Bool-cases (ltb max_batch (length events))) [
    | inl y ↦ rw (n, y) (Sends-same ctx.tenant_id s)
    | inr m ↦
        rw (n, m)
          (publish_all-sends ctx.tenant_id b (map (stamp ctx) events) s _
            (stamp-tenant ctx events h k))
  ]
]

-- The counters of a batch, from some progress: what is sent is what is accepted, and each event is
-- accepted or failed and has an item.
record Counts (n : ℕ) (s r : NatsService) (p q : Progress) : Type 0 where
  sends : length r.sent + p.accepted ≡ length s.sent + q.accepted
  all_told : q.accepted + q.failed ≡ p.accepted + p.failed + n
  listed : length q.items ≡ length p.items + n

after_publish-Counts :
    (e : NormalizedEvent) (s : NatsService) (a : Answer) (p q : Progress)
    → account e (after_publish e s a).1 p ≡ some q
    → Counts 1 s (after_publish e s a).0 p q
unfolding account
after_publish-Counts e s (raised arrived) p q h =
    let i : length (p.items ++ error_ack e ∷ []) ≡ length p.items + 1 =
      length-append p.items (error_ack e ∷ []) in
    ground (arith, i)
after_publish-Counts e s (acknowledged stream seq) p q h =
    let i : length (p.items ++ accepted_ack e stream seq ∷ []) ≡ length p.items + 1 =
      length-append p.items (accepted_ack e stream seq ∷ []) in
    let j : length (s.sent ++ message e ∷ []) ≡ length s.sent + 1 =
      length-append s.sent (message e ∷ []) in
    ground (arith, i, j)

account-unavailable : (e : NormalizedEvent) (p q : Progress) → account e unavailable p ≢ some q
unfolding account
account-unavailable e p q h = cc

Counts-from :
    (r s u : NatsService) (p q : Progress) → r.sent ≡ s.sent → Counts 1 r u p q → Counts 1 s u p q
Counts-from r s u p q h c = ground (arith, ap length h)

Counts-trans :
    (n : ℕ) (s r u : NatsService) (p m q : Progress)
    → Counts 1 s r p m
    → Counts n r u m q
    → Counts (suc n) s u p q
Counts-trans n s r u p m q c d = ground arith

publish-Counts :
    (b : Broker) (e : NormalizedEvent) (s : NatsService) (p q : Progress)
    → account e (publish_normalized_event b e s).1 p ≡ some q
    → Counts 1 s (publish_normalized_event b e s).0 p q
unfolding publish_normalized_event
publish-Counts b e s p q h = elim (Bool-cases (connect b s).connected) [
  | inl y ↦ rw y (
      let c =
        after_publish-Counts e (connect b s) (b.answers (connect b s).messages) p q (rw y at h) in
      Counts-from (connect b s) s _ p q (connect-sent b s) c)
  | inr n ↦ absurd (account-unavailable e p q (rw n at h))
]

publish_all-none :
    (b : Broker) (es : List NormalizedEvent) (s : NatsService) → (publish_all b es s none).1 ≡ none
unfolding publish_all
publish_all-none b [] s = refl
publish_all-none b (e ∷ es) s = refl

publish_all-Counts :
    (b : Broker) (es : List NormalizedEvent) (s : NatsService) (p q : Progress)
    → (publish_all b es s (some p)).1 ≡ some q
    → Counts (length es) s (publish_all b es s (some p)).0 p q
unfolding publish_all
publish_all-Counts b [] s p q h = subst (λ x. Counts 0 s s p x) (some_inj h) (ground arith)
publish_all-Counts b (e ∷ es) s p q h =
    let r = publish_normalized_event b e s in
    elim (Option-cases (account e r.1 p)) [
      | inl n ↦
          let stopped : (publish_all b es r.0 none).1 ≡ some q =
            subst (λ x. (publish_all b es r.0 x).1 ≡ some q) n h in
          cc (publish_all-none b es r.0)
      | inr (m, y) ↦
          subst (λ x. Counts (suc (length es)) s (publish_all b es r.0 x).0 p q) (sym y)
            (Counts-trans (length es) s r.0 (publish_all b es r.0 (some m)).0 p m q
              (publish-Counts b e s p m y)
              (publish_all-Counts b es r.0 m q
                (subst (λ x. (publish_all b es r.0 x).1 ≡ some q) y h)))
    ]

batch_response_found :
    (events : List NormalizedEvent) (p : Option Progress) (a : BatchAck)
    → batch_response events p ≡ ok a
    → (q : Progress) × (p ≡ some q)
      × (a.total ≡ length events)
      × (a.accepted_count ≡ q.accepted)
      × (a.failed_count ≡ q.failed)
      × (a.items ≡ q.items)
unfolding batch_response
batch_response_found events none a h = cc
batch_response_found events (some q) a h =
    (q, refl, ground arith, ground arith, ground arith, ground arith)

-- A batch that is answered is told in full: each of its events is accepted or failed and has an item in
-- the answer, and as many messages have been acknowledged by the broker as are counted as accepted.
pub ingest_batch_events-counts :
    (b : Broker) (max_batch : ℕ) (ctx : AuthContext) (events : List NormalizedEvent)
    (s : NatsService) (a : BatchAck)
    → (ingest_batch_events b max_batch ctx events s).1 ≡ ok a
    → (a.total ≡ length events)
      × (a.accepted_count + a.failed_count ≡ length events)
      × (length a.items ≡ length events)
      × (length (ingest_batch_events b max_batch ctx events s).0.sent
          ≡ length s.sent + a.accepted_count)
unfolding ingest_batch_events
ingest_batch_events-counts b max_batch ctx events s a h = elim (Bool-cases (length events == 0)) [
  | inl y ↦ cc (rw y at h)
  | inr n ↦ elim (Bool-cases (ltb max_batch (length events))) [
    | inl y ↦ cc (rw (n, y) at h)
    | inr m ↦
        let stamped = map (stamp ctx) events in
        let (q, e, t, c, f, i) = batch_response_found stamped _ a (rw (n, m) at h) in
        let counts = publish_all-Counts b stamped s _ q e in
        let l : length stamped ≡ length events = length-map (stamp ctx) events in
        rw (n, m)
          (
            omega (arith, l, t),
            omega (arith, l, c, f, counts.all_told),
            omega (arith, l, ap length i, counts.listed),
            omega (arith, c, counts.sends),
          )
  ]
]
