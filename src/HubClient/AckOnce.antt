-- ===== src/HubClient/AckOnce.antt =====
-- Proofs about `AckQueue` of internal/hubclient/client.go, which may send its acks three times.
use Prim.Native.String.{◌++◌ as ◌<>◌}
use bear_sync.Prelude.{
  ℕ, zero, suc, ◌+◌, ◌≤◌, ◌<◌, Bool, true, false, some, List, ◌≡◌, refl, sym, ap, ◌∙◌, ◌⊎◌, inl,
  inr, arith, nat_eq, ok, Result-cases, Bool-cases, if◌then◌else◌,
}
use mathlib.Core.Path.{subst}
use bear_sync.Models.Sync.{SyncAckItem}
use bear_sync.Store.Db.{Db}
use bear_sync.Store.Ack.{ack_queue_items}
use bear_sync.Store.Ack.Again.{ack_batch_again}
use bear_sync.Api.SyncHandlers.{sync_ack}
use bear_sync.HubClient.Retry.{
  HttpRequest, Response, Exchange, broken, responds, HubLink, HttpClient, Cause, no_cause, Outcome,
  failed, returned, attempts, is_transient_status, retry_wait, transport, parse_error_response,
  judge, do_with_retry,
}
use bear_sync.HubClient.Calls.{Json, Nothing, nothing, receive, ack_queue}
use bear_sync.HubClient.Hub.{
  Fate, passes, served_but, dropped, Weather, HubJson, hub_link, answer_of, reach,
}

abbrev pub says_ok : Exchange → Bool
says_ok (broken ended e) = false
says_ok (responds r) = nat_eq r.status_code 200

-- Only the hub says 200.
abbrev pub IsHonest : Fate → Type 0
IsHonest passes = Unit
IsHonest (served_but x) = says_ok x ≡ false
IsHonest (dropped x) = says_ok x ≡ false

module _ (j : HubJson) (w : Weather) (honest : (k : ℕ) → IsHonest (w.fate k))
    (acks : List SyncAckItem) (req : HttpRequest) (arrives : j.acks_of req.body ≡ some acks)
    (db0 : Db) where
  -- The acks were delivered with success at an attempt before the k-th.
  abbrev Acked : ℕ → Db → Type 0
  Acked k db = (i : ℕ) × (i < k) × (ack_queue_items (w.clock i) db0 acks ≡ ok db)

  abbrev Served : ℕ → Db → Type 0
  Served k db = (db ≡ db0) ⊎ Acked k db

  later : (k : ℕ) (db : Db) → Served k db → Served (suc k) db
  later k db (inl e) = inl e
  later k db (inr (i, le, run)) = inr (i, omega arith, run)

  -- A delivery that succeeds now leaves what the first that succeeded left.
  delivered :
      (k : ℕ) (db : Db) {db' : Db}
      → Served k db
      → ack_queue_items (w.clock k) db acks ≡ ok db'
      → Acked (suc k) db'
  delivered k db (inl e) run =
      (k, omega arith, ap (λ d. ack_queue_items (w.clock k) d acks) (sym e) ∙ run)
  delivered k db {db'} (inr (i, le, first)) run =
      (i, omega arith, first ∙ sym (ack_batch_again (w.clock i) (w.clock k) db0 acks first) ∙ run)

  -- The body that arrives is served.
  served :
      (k : ℕ) (db : Db)
      → Served k db
      → let (db', reply, ids) = sync_ack db (w.clock k) (j.acks_of req.body) in
        Served (suc k) db' × (says_ok (responds (answer_of j reply)) ≡ true → Acked (suc k) db')
  unfolding sync_ack
  served k db h =
      rw (arrives, sync_ack)
        (elim (Result-cases (ack_queue_items (w.clock k) db acks)) [
          | inl (d, run) ↦ let acked = delivered k db h run in rw run (inr acked, λ said. acked)
          | inr (e, run) ↦ rw run (later k db h, λ said. cc)
        ])

  step :
      (k : ℕ) (db : Db) (f : Fate)
      → IsHonest f
      → Served k db
      → let ((db', k'), x) = reach j (w.clock k) req db k f in
        (k' ≡ suc k) × Served k' db' × (says_ok x ≡ true → Acked k' db')
  step k db passes true_fate h = let (a, b) = served k db h in (refl, a, b)
  step k db (served_but x) lies h = (refl, (served k db h).0, λ said. cc)
  step k db (dropped x) lies h = (refl, later k db h, λ said. cc)

  abbrev L : HubLink
  L = hub_link j w

  -- A call that ends with 200 has been served by one of its attempts.
  abbrev Acks : ℕ → (Db × ℕ) × Outcome Response → Type 0
  Acks last ((db, k), failed e) = Unit
  Acks last ((db, k), returned r) = nat_eq r.status_code 200 ≡ true → Acked last db

  Acked-le : {k last : ℕ} (db : Db) → k ≤ last → Acked k db → Acked last db
  Acked-le db le (i, before, run) = (i, omega arith, run)

  -- The wait goes on with the rest, or fails.
  waited :
      (ended : Bool) (last : ℕ) (rest : (Db × ℕ) × Outcome Response) (s : Db × ℕ)
      → Acks last rest
      → Acks last (if ended then (s, failed retry_wait) else rest)
  waited true last rest s h = tt
  waited false last rest s h = h

  -- `next` is the rest of the loop after the k-th attempt of all.
  judged :
      (attempt last k : ℕ) (next : Cause → Db × ℕ → (Db × ℕ) × Outcome Response)
      → suc k ≤ last
      → ((db' : Db) (k' : ℕ) (c : Cause)
          → k' ≡ suc k
          → Served k' db'
          → Acks last (next c (db', k')))
      → (sent : (Db × ℕ) × Exchange)
      → let ((db', k'), x) = sent in
        (k' ≡ suc k) × Served k' db' × (says_ok x ≡ true → Acked k' db')
        → Acks last (judge L attempt next sent)
  judged attempt last k next le rest ((db', k'), broken true e) h = tt
  judged attempt last k next le rest ((db', k'), broken false e) h =
      waited (w.ends_wait k') last _ (db', k') (rest db' k' (transport e) h.0 h.1)
  judged attempt last k next le rest ((db', k'), responds r) h =
      elim (Bool-cases (is_transient_status r.status_code)) [
        | inl t ↦ rw t (
            waited (w.ends_wait k') last _ (db', k')
              (rest db' k' (parse_error_response L r) h.0 h.1))
        | inr t ↦ rw t (λ said. Acked-le db' (omega (arith, h.0)) (h.2 said))
      ]

  attempts-Acks :
      (left attempt last : ℕ) (cause : Cause) (db : Db) (k : ℕ)
      → k + left ≤ last
      → Served k db
      → Acks last (attempts L req left attempt cause (db, k))
  unfolding attempts
  attempts-Acks zero attempt last cause db k le h = tt
  attempts-Acks (suc left) attempt last cause db k le h =
      judged attempt last k (attempts L req left (suc attempt)) (omega arith)
        (λ db' k' c e s. attempts-Acks left (suc attempt) last c db' k' (omega arith) s)
        (reach j (w.clock k) req db k (w.fate k)) (step k db (w.fate k) (honest k) h)

  -- A call that returns nil had a 200.
  received :
      (last : ℕ) (out : (Db × ℕ) × Outcome Response) {db' : Db} {n : ℕ}
      → Acks last out
      → receive L (λ r. returned nothing) out ≡ ((db', n), returned nothing)
      → Acked last db'
  received last (s, failed e) h run = cc (ap (λ (o : (Db × ℕ) × Outcome Nothing). o.1) run)
  received last ((db, k), returned r) {db'} h run = elim (Bool-cases (nat_eq r.status_code 200)) [
    | inl e ↦
        subst (Acked last) (ap (λ (o : (Db × ℕ) × Outcome Nothing). o.0.0) (rw e at run)) (h e)
    | inr e ↦ cc (ap (λ (o : (Db × ℕ) × Outcome Nothing). o.1) (rw e at run))
  ]

-- If only the hub answers 200, and the body of the acks arrives as it was sent, an AckQueue that
-- returns nil, whatever became of its attempts and their answers, leaves the database as one
-- delivery of the acks at the time of one of at most three attempts does.
pub ack_queue_once :
    (j : HubJson) (w : Weather) (json : Json) (c : HttpClient) (acks : List SyncAckItem)
    (body : List ℕ) (db db' : Db) (n : ℕ)
    → ((k : ℕ) → IsHonest (w.fate k))
    → json.of_acks acks ≡ some body
    → j.acks_of (some body) ≡ some acks
    → ack_queue (hub_link j w) json c acks (db, 0) ≡ ((db', n), returned nothing)
    → (i : ℕ) × (i < 3) × (ack_queue_items (w.clock i) db acks ≡ ok db')
unfolding ack_queue do_with_retry
ack_queue_once j w json c acks body db db' n honest encodes arrives run =
    let req : HttpRequest = record {
      method = "POST";
      url = c.base_url <> "/api/sync/ack";
      authorization = "Bearer " <> c.token;
      content_type = some "application/json";
      body = some body;
    } in
    received j w honest acks req arrives db 3 _
      (attempts-Acks j w honest acks req arrives db 3 0 3 no_cause db 0 (omega arith) (inl refl))
      (rw encodes at run)
