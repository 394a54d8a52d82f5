-- ===== src/Ingest.antt =====
-- How events come in over the web: app/routers/ingest_v1.py, and app/services/nats_service.py as far as it
-- publishes them. The broker is an argument: what it answers to the n-th connection and to the n-th
-- message. Of an event only the id and the tenant are told apart.
pub mod Tenant
use siem_sentinel_xv.Base.{
  ℕ, suc, ◌+◌, ltb, ◌==◌, Bool, true, false, not, ◌&&◌, Option, none, some, List, String, [], ◌∷◌,
  ◌++◌, map, length, ◌=ₛ◌, if◌then◌else◌,
}
use siem_sentinel_xv.Value.{Fields}
use siem_sentinel_xv.Http.{Response, ok, fail}
use siem_sentinel_xv.Access.Context.{AuthContext}

-- app/schemas/normalized_event.py; the rest of the event is passed on as it is
pub record NormalizedEvent : Type 0 where
  pub event_id : String
  pub tenant_id : String
  pub body : Fields

-- What comes of a message: the stream and the sequence of its acknowledgement, or publishing raises, with
-- the message at the broker all the same (the acknowledgement came too late) or not.
pub data Answer : Type 0 where
  acknowledged : String → ℕ → Answer
  raised : Bool → Answer

-- The broker: whether the n-th connection is made, and what comes of the n-th message.
pub record Broker : Type 0 where
  pub connects : ℕ → Bool
  pub answers : ℕ → Answer

-- `NatsService`, with what it has sent: the subject, the id for duplicates and the event. The messages
-- that are acknowledged are told apart from those that reached the broker without that.
pub record NatsService : Type 0 where
  pub connected : Bool
  pub connections : ℕ
  pub messages : ℕ
  pub sent : List (String × String × NormalizedEvent)
  pub unacknowledged : List (String × String × NormalizedEvent)

abbrev pub subject_normalized_hosting : String
subject_normalized_hosting = "sentinelx.events.normalized.hosting"

-- `connect`
unfoldable pub connect : Broker → NatsService → NatsService
connect b s =
    if s.connected
    then s
    else record s { connected = b.connects s.connections; connections = suc s.connections }

-- What publishing gives: the stream and the sequence, no connection, or another error.
pub data Published : Type 0 where
  sent : String → ℕ → Published
  unavailable : Published
  refused : Published

abbrev pub message : NormalizedEvent → String × String × NormalizedEvent
message e = (subject_normalized_hosting, e.event_id, e)

abbrev pub after_publish : NormalizedEvent → NatsService → Answer → NatsService × Published
after_publish e s (raised arrived) = (
  record s {
    messages = suc s.messages;
    unacknowledged = s.unacknowledged ++ (if arrived then message e ∷ [] else []);
  },
  refused,
)
after_publish e s (acknowledged stream seq) =
    (record s { messages = suc s.messages; sent = s.sent ++ message e ∷ [] }, sent stream seq)

-- `publish_normalized_event`
unfoldable pub publish_normalized_event :
    Broker → NormalizedEvent → NatsService → NatsService × Published
unfolding connect
publish_normalized_event b e s =
    let s' = connect b s in
    if s'.connected then after_publish e s' (b.answers s'.messages) else (s', unavailable)

-- IngestAckResponse, without its time
pub record Ack : Type 0 where
  pub status : String
  pub event_id : String
  pub tenant_id : String
  pub stream : Option String
  pub sequence : Option ℕ

abbrev pub given_stream : String → String
given_stream stream = if stream =ₛ "" then "SENTINELX_EVENTS_NORMALIZED" else stream

abbrev pub accepted_ack : NormalizedEvent → String → ℕ → Ack
accepted_ack e stream seq = record {
  status = "accepted";
  event_id = e.event_id;
  tenant_id = e.tenant_id;
  stream = some (given_stream stream);
  sequence = some seq;
}

abbrev pub error_ack : NormalizedEvent → Ack
error_ack e = record {
  status = "error";
  event_id = e.event_id;
  tenant_id = e.tenant_id;
  stream = none;
  sequence = none;
}

-- The caller's tenant, if it has one of its own, takes the place of the event's.
unfoldable pub stamp : AuthContext → NormalizedEvent → NormalizedEvent
stamp ctx e =
    if not (ctx.tenant_id =ₛ "") && not (ctx.tenant_id =ₛ "default")
    then record e { tenant_id = ctx.tenant_id }
    else e

abbrev pub single_response : NormalizedEvent → Published → Response Ack
single_response e (sent stream seq) = ok (accepted_ack e stream seq)
single_response e unavailable = fail 503
single_response e refused = fail 500

-- `ingest_single_event`
unfoldable pub ingest_single_event :
    Broker → AuthContext → NormalizedEvent → NatsService → NatsService × Response Ack
unfolding stamp
ingest_single_event b ctx event s =
    let e = stamp ctx event in
    let (s', r) = publish_normalized_event b e s in (s', single_response e r)

pub record Progress : Type 0 where
  pub accepted : ℕ
  pub failed : ℕ
  pub items : List Ack

-- What one event of a batch makes of the counters; none where the batch stops.
unfoldable pub account : NormalizedEvent → Published → Progress → Option Progress
account e (sent stream seq) p =
    some (record p { accepted = suc p.accepted; items = p.items ++ accepted_ack e stream seq ∷ [] })
account e refused p = some (record p { failed = suc p.failed; items = p.items ++ error_ack e ∷ [] })
account e unavailable p = none

-- The loop over a batch, which stops where there is no broker.
unfoldable pub publish_all :
    Broker → List NormalizedEvent → NatsService → Option Progress → NatsService × Option Progress
unfolding account
publish_all b [] s p = (s, p)
publish_all b (e ∷ es) s none = (s, none)
publish_all b (e ∷ es) s (some p) =
    let (s', r) = publish_normalized_event b e s in publish_all b es s' (account e r p)

-- BatchIngestAckResponse, without its time
pub record BatchAck : Type 0 where
  pub status : String
  pub total : ℕ
  pub accepted_count : ℕ
  pub failed_count : ℕ
  pub tenant_id : String
  pub items : List Ack

abbrev first_tenant : List NormalizedEvent → String
first_tenant [] = "default"
first_tenant (e ∷ es) = e.tenant_id

unfoldable pub batch_response : List NormalizedEvent → Option Progress → Response BatchAck
batch_response events none = fail 503
batch_response events (some p) = ok (record {
  status = if p.failed == 0 then "accepted" else "partial_error";
  total = length events;
  accepted_count = p.accepted;
  failed_count = p.failed;
  tenant_id = first_tenant events;
  items = p.items;
})

-- `ingest_batch_events`, for a largest batch
unfoldable pub ingest_batch_events :
    Broker → ℕ → AuthContext → List NormalizedEvent → NatsService → NatsService × Response BatchAck
unfolding stamp batch_response
ingest_batch_events b max_batch ctx events s =
    let stamped = map (stamp ctx) events in
    let (s', p) =
      publish_all b stamped s (some (record { accepted = 0; failed = 0; items = [] })) in
    if length events == 0
    then (s, fail 400)
    else if ltb max_batch (length events)
    then (s, fail 429)
    else (s', batch_response stamped p)
