-- ===== src/Pipeline/Lines.antt =====
-- The counters of app/services/log_pipeline.py and where its loop stops.
use siem_sentinel_xv.Base.{
  ℕ, zero, suc, ◌+◌, ◌-◌, ◌%◌, ◌≤◌, ◌<◌, leb, ◌==◌, ◌≡◌, refl, sym, ap, ◌∙◌, Bool, true, false, not,
  ◌&&◌, List, [], ◌∷◌, ◌++◌, length, append-nil, append_assoc, arith, Bool-cases, inl, inr,
}
use siem_sentinel_xv.Normalize.{Draft}
use siem_sentinel_xv.Pipeline.{
  Config, Line, skipped, raised, handled, Progress, listed, account, nonempty, flush, flush_if_full,
  on, stop, flow_of, after_line, go_on, run_lines,
}

-- The lines that are read: all up to the one that fails as the `k`-th, or the first where `k` is 0.
abbrev pub read_lines : ℕ → List Line → List Line
read_lines k [] = []
read_lines k (skipped ∷ ls) = skipped ∷ read_lines k ls
read_lines k (handled raw event ∷ ls) = handled raw event ∷ read_lines k ls
read_lines zero (raised ∷ ls) = raised ∷ []
read_lines (suc zero) (raised ∷ ls) = raised ∷ []
read_lines (suc (suc k)) (raised ∷ ls) = raised ∷ read_lines (suc k) ls

-- The events of lines, in their order.
abbrev pub events : List Line → List Draft
events [] = []
events (handled raw event ∷ ls) = listed event ++ events ls
events (skipped ∷ ls) = events ls
events (raised ∷ ls) = events ls

abbrev pub failures : List Line → ℕ
failures [] = 0
failures (raised ∷ ls) = suc (failures ls)
failures (skipped ∷ ls) = failures ls
failures (handled raw event ∷ ls) = failures ls

abbrev pub concat : List (List Draft) → List Draft
concat [] = []
concat (b ∷ bs) = b ++ concat bs

-- All that is handed on or waits, in order.
abbrev pub stream : Progress → List Draft
stream p = concat p.published ++ p.waiting

concat-append : (bs cs : List (List Draft)) → concat (bs ++ cs) ≡ concat bs ++ concat cs
concat-append [] cs = refl
concat-append (b ∷ bs) cs =
    ap (λ x. b ++ x) (concat-append bs cs) ∙ sym (append_assoc b (concat bs) (concat cs))

pub flush-stream : (p : Progress) → stream (flush p) ≡ stream p
unfolding flush
flush-stream p = elim (Bool-cases (nonempty p.waiting)) [
  | inl y ↦ rw y (
      append-nil _
      ∙ concat-append p.published (p.waiting ∷ [])
      ∙ ap (λ x. concat p.published ++ x) (append-nil p.waiting))
  | inr n ↦ rw n refl
]

-- What lines make of the counters and of the stream.
pub record Reads (ls : List Line) (p q : Progress) : Type 0 where
  pub streamed : stream q ≡ stream p ++ events ls
  pub total : q.lines_total ≡ p.lines_total + length ls
  pub failed : q.lines_failed ≡ p.lines_failed + failures ls
  pub told :
      q.lines_parsed + q.lines_skipped + q.lines_failed + p.lines_total
      ≡ p.lines_parsed + p.lines_skipped + p.lines_failed + q.lines_total
  pub created : q.events_created + p.lines_parsed ≡ p.events_created + q.lines_parsed

Reads-nil : (p : Progress) → Reads [] p p
Reads-nil p = record {
  streamed = sym (append-nil (stream p));
  total = omega arith;
  failed = omega arith;
  told = omega arith;
  created = omega arith;
}

events-cons : (l : Line) (ls : List Line) → events (l ∷ ls) ≡ events (l ∷ []) ++ events ls
events-cons skipped ls = refl
events-cons raised ls = refl
events-cons (handled raw event) ls = ap (λ x. x ++ events ls) (sym (append-nil (listed event)))

failures-cons : (l : Line) (ls : List Line) → failures (l ∷ ls) ≡ failures (l ∷ []) + failures ls
failures-cons skipped ls = omega arith
failures-cons raised ls = omega arith
failures-cons (handled raw event) ls = omega arith

Reads-cons :
    (l : Line) (ls : List Line) (p m q : Progress)
    → Reads (l ∷ []) p m
    → Reads ls m q
    → Reads (l ∷ ls) p q
Reads-cons l ls p m q one rest = record {
  streamed =
      rest.streamed
      ∙ ap (λ x. x ++ events ls) one.streamed
      ∙ append_assoc (stream p) (events (l ∷ [])) (events ls)
      ∙ ap (λ x. stream p ++ x) (sym (events-cons l ls));
  total = omega (arith, one.total, rest.total);
  failed = omega (arith, one.failed, rest.failed, failures-cons l ls);
  told = omega (arith, one.told, rest.told);
  created = omega (arith, one.created, rest.created);
}

account-Reads : (n : ℕ) (l : Line) (p : Progress) → Reads (l ∷ []) p (account n l p)
unfolding account
account-Reads n skipped p = record {
  streamed = sym (append-nil (stream p));
  total = omega arith;
  failed = omega arith;
  told = omega arith;
  created = omega arith;
}
account-Reads n raised p = record {
  streamed = sym (append-nil (stream p));
  total = omega arith;
  failed = omega arith;
  told = omega arith;
  created = omega arith;
}
account-Reads n (handled raw event) p = record {
  streamed =
      sym (append_assoc (concat p.published) p.waiting (listed event))
      ∙ ap (λ x. stream p ++ x) (sym (append-nil (listed event)));
  total = omega arith;
  failed = omega arith;
  told = omega arith;
  created = omega arith;
}

flush_if_full-stream : (b : ℕ) (q : Progress) → stream (flush_if_full b q) ≡ stream q
unfolding flush_if_full
flush_if_full-stream b q =
    elim (Bool-cases (not (q.events_created == 0) && (q.events_created % b) == 0)) [
      | inl y ↦ rw y (flush-stream q)
      | inr n ↦ rw n refl
    ]

-- What publishing leaves alone.
flush_if_full-Reads :
    (b : ℕ) (ls : List Line) (p q : Progress) → Reads ls p q → Reads ls p (flush_if_full b q)
unfolding flush_if_full flush
flush_if_full-Reads b ls p q r = record {
  streamed = flush_if_full-stream b q ∙ r.streamed;
  total = ground arith;
  failed = ground arith;
  told = ground arith;
  created = ground arith;
}

after_line-Reads :
    (config : Config) (n : ℕ) (l : Line) (p : Progress) → Reads (l ∷ []) p (after_line config n l p)
unfolding after_line
after_line-Reads config n skipped p = account-Reads n skipped p
after_line-Reads config n raised p =
    elim (Bool-cases (leb config.max_line_errors (account n raised p).lines_failed)) [
      | inl y ↦ rw y (account-Reads n raised p)
      | inr k ↦ rw k (
          flush_if_full-Reads config.batch_events (raised ∷ []) p (account n raised p)
            (account-Reads n raised p))
    ]
after_line-Reads config n (handled raw event) p =
    flush_if_full-Reads config.batch_events _ p (account n (handled raw event) p)
      (account-Reads n (handled raw event) p)

after_line-failed :
    (config : Config) (n : ℕ) (l : Line) (p : Progress)
    → (after_line config n l p).lines_failed ≡ p.lines_failed + failures (l ∷ [])
after_line-failed config n l p = (after_line-Reads config n l p).failed

read_lines_stop : (k : ℕ) (ls : List Line) → k ≤ 1 → read_lines k (raised ∷ ls) ≡ raised ∷ []
read_lines_stop zero ls h = refl
read_lines_stop (suc zero) ls h = refl
read_lines_stop (suc (suc k)) ls h = absurd (omega arith)

read_lines_on :
    (k j : ℕ) (ls : List Line)
    → k ≡ suc j
    → 0 < j
    → read_lines k (raised ∷ ls) ≡ raised ∷ read_lines j ls
read_lines_on k zero ls e h = absurd (omega arith)
read_lines_on k (suc j) ls e h = rw e refl

run_lines-cons :
    (config : Config) (n : ℕ) (l : Line) (ls : List Line) (p : Progress)
    → run_lines config n (l ∷ ls) p
      ≡ go_on
          (flow_of config l (account n l p))
          (run_lines config (suc n) ls (after_line config n l p))
          (after_line config n l p)
unfolding run_lines
run_lines-cons config n l ls p = refl

abbrev is_stopped : Config → Line → Progress → Bool
is_stopped config raised p = leb config.max_line_errors p.lines_failed
is_stopped config skipped p = false
is_stopped config (handled raw event) p = false

flow_of_on :
    (config : Config) (l : Line) (p : Progress)
    → (config.batch_events == 0) ≡ false
    → is_stopped config l p ≡ false
    → flow_of config l p ≡ on
unfolding flow_of
flow_of_on config skipped p b h = refl
flow_of_on config raised p b h = ground arith
flow_of_on config (handled raw event) p b h = ground arith

-- How the lines that are read go on after one that does not stop the loop.
read_lines-cons :
    (config : Config) (n : ℕ) (l : Line) (ls : List Line) (p : Progress)
    → is_stopped config l (account n l p) ≡ false
    → read_lines (config.max_line_errors - p.lines_failed) (l ∷ ls)
      ≡ l ∷ read_lines (config.max_line_errors - (after_line config n l p).lines_failed) ls
read_lines-cons config n skipped ls p h =
    let same : (after_line config n skipped p).lines_failed ≡ p.lines_failed =
      after_line-failed config n skipped p ∙ omega arith in
    rw same refl
read_lines-cons config n (handled raw event) ls p h =
    let same : (after_line config n (handled raw event) p).lines_failed ≡ p.lines_failed =
      after_line-failed config n (handled raw event) p ∙ omega arith in
    rw same refl
read_lines-cons config n raised ls p h =
    let one : (account n raised p).lines_failed ≡ p.lines_failed + 1 =
      (account-Reads n raised p).failed in
    let next : (after_line config n raised p).lines_failed ≡ p.lines_failed + 1 =
      after_line-failed config n raised p in
    read_lines_on (config.max_line_errors - p.lines_failed)
      (config.max_line_errors - (after_line config n raised p).lines_failed) ls (ground arith)
      (ground arith)

stop-Reads :
    (config : Config) (n : ℕ) (l : Line) (ls : List Line) (p : Progress)
    → is_stopped config l (account n l p) ≡ true
    → (flow_of config l (account n l p) ≡ stop)
      × (read_lines (config.max_line_errors - p.lines_failed) (l ∷ ls) ≡ l ∷ [])
unfolding flow_of
stop-Reads config n skipped ls p h = cc
stop-Reads config n (handled raw event) ls p h = cc
stop-Reads config n raised ls p h =
    let one : (account n raised p).lines_failed ≡ p.lines_failed + 1 =
      (account-Reads n raised p).failed in
    (rw h refl, read_lines_stop (config.max_line_errors - p.lines_failed) ls (ground arith))

run_lines-nil : (config : Config) (n : ℕ) (p : Progress) → run_lines config n [] p ≡ (false, p)
unfolding run_lines
run_lines-nil config n p = refl

-- The loop, from where it stands: it does not end by an exception, and reads what it may.
pub run_lines-Reads :
    (config : Config) (n : ℕ) (ls : List Line) (p : Progress)
    → (config.batch_events == 0) ≡ false
    → ((run_lines config n ls p).0 ≡ false)
      × Reads
          (read_lines (config.max_line_errors - p.lines_failed) ls)
          p
          (run_lines config n ls p).1
run_lines-Reads config n [] p b = rw (run_lines-nil config n p) (refl, Reads-nil p)
run_lines-Reads config n (l ∷ ls) p b =
    let m = after_line config n l p in
    elim (Bool-cases (is_stopped config l (account n l p))) [
      | inl y ↦
          let (flow, read) = stop-Reads config n l ls p y in
          rw (run_lines-cons config n l ls p, flow, read) (refl, after_line-Reads config n l p)
      | inr k ↦
          let (e, r) = run_lines-Reads config (suc n) ls m b in
          rw
            (
              run_lines-cons config n l ls p,
              flow_of_on config l (account n l p) b k,
              read_lines-cons config n l ls p k,
            )
            (e, Reads-cons l _ p m _ (after_line-Reads config n l p) r)
    ]
