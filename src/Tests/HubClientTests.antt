-- ===== src/Tests/HubClientTests.antt =====
-- The hub client at concrete inputs.
use bear_sync.Prelude.{ℕ, zero, suc, ◌<◌, false, none, some, [], ◌∷◌, ◌≡◌, refl, ok}
use bear_sync.Store.Ack.{ack_queue_items}
use bear_sync.Api.SyncHandlers.{sync_ack}
use bear_sync.HubClient.Retry.{broken, HttpClient, returned}
use bear_sync.HubClient.Calls.{Json, nothing, ack_queue}
use bear_sync.HubClient.Hub.{Fate, passes, served_but, Weather, HubJson, hub_link}
use bear_sync.HubClient.AckOnce.{IsHonest, ack_queue_once}
use bear_sync.Tests.AckTests.{before_ack, done, acked}

-- The first answer is lost after the hub has served the acks; the second arrives.
abbrev fate_of : ℕ → Fate
fate_of zero = served_but (broken false "connection reset")
fate_of (suc k) = passes

fate-IsHonest : (k : ℕ) → IsHonest (fate_of k)
fate-IsHonest zero = refl
fate-IsHonest (suc k) = tt

abbrev weather : Weather
weather = record { fate = fate_of; clock = λ k. 70; ends_wait = λ k. false }

abbrev hub_json : HubJson
hub_json = record {
  acks_of = λ body. some (done ∷ []);
  of_error = λ msg. [];
  of_accepted = [];
  error_of = λ body. none;
  text_of = λ body. "";
}

abbrev json : Json
json = record {
  of_push = λ req. none;
  of_acks = λ acks. some (1 ∷ []);
  items = λ r. none;
  status = λ r. none;
}

abbrev client : HttpClient
client = record { base_url = "http://hub"; token = "secret" }

lost_once :
    ack_queue (hub_link hub_json weather) json client (done ∷ []) (before_ack, 0)
    ≡ ((acked, 2), returned nothing)
unfolding ack_queue sync_ack
lost_once = refl

ack_queue_once_example :
    (i : ℕ) × (i < 3) × (ack_queue_items (weather.clock i) before_ack (done ∷ []) ≡ ok acked)
ack_queue_once_example =
    ack_queue_once hub_json weather json client (done ∷ []) (1 ∷ []) before_ack acked 2
      fate-IsHonest refl refl lost_once
