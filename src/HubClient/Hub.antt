-- ===== src/HubClient/Hub.antt =====
-- The hub as the client of internal/hubclient/client.go reaches it with the acks of
-- internal/api/sync_handler.go: requests and answers that get lost, and answers that a proxy gives in
-- the hub's place.
use bear_sync.Prelude.{ℕ, suc, String, Bool, true, false, Option, List}
use bear_sync.Models.Sync.{SyncAckItem}
use bear_sync.Store.Db.{Db}
use bear_sync.Api.SyncHandlers.{SyncReply, Accepted, refused, replies, sync_ack}
use bear_sync.HubClient.Retry.{HttpRequest, Response, Exchange, responds, HubLink}

-- What becomes of an attempt: the hub's answer arrives, the hub serves it and the client sees
-- something else, or the hub does not see it.
pub data Fate : Type 0 where
  passes : Fate
  served_but : Exchange → Fate
  dropped : Exchange → Fate

-- The k-th attempt of a call: its fate, the hub's clock, and whether the wait after it is ended.
pub record Weather : Type 0 where
  pub fate : ℕ → Fate
  pub clock : ℕ → ℕ
  pub ends_wait : ℕ → Bool

-- How the hub reads a body, and writes one for an error or a success.
pub record HubJson : Type 0 where
  pub acks_of : Option (List ℕ) → Option (List SyncAckItem)
  pub of_error : String → List ℕ
  pub of_accepted : List ℕ
  pub error_of : List ℕ → Option String
  pub text_of : List ℕ → String

abbrev pub answer_of : HubJson → SyncReply Accepted → Response
answer_of j (refused code msg) = record {
  status_code = code;
  body = j.of_error msg;
  cut_off = false;
}
answer_of j (replies a) = record { status_code = 200; body = j.of_accepted; cut_off = false }

-- The database and the number of attempts so far, after an attempt with this fate.
abbrev pub reach : HubJson → ℕ → HttpRequest → Db → ℕ → Fate → (Db × ℕ) × Exchange
reach j now req db k passes =
    let (db', reply, ids) = sync_ack db now (j.acks_of req.body) in
    ((db', suc k), responds (answer_of j reply))
reach j now req db k (served_but x) = (((sync_ack db now (j.acks_of req.body)).0, suc k), x)
reach j now req db k (dropped x) = ((db, suc k), x)

abbrev pub hub_link : HubJson → Weather → HubLink
hub_link j w = record {
  State = Db × ℕ;
  accepts = λ req. true;
  send = λ (db, k) req. reach j (w.clock k) req db k (w.fate k);
  sleep = λ (db, k) delay. ((db, k), w.ends_wait k);
  error_of = j.error_of;
  text_of = j.text_of;
}
