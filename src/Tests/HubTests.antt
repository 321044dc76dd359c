-- ===== src/Tests/HubTests.antt =====
-- A short history of the hub: a consumer enqueues an update, and the bridge leases it.
use bear_sync.Prelude.{ℕ, String, [], ◌∷◌, ◌≡◌, refl, ok}
use bear_sync.Models.WriteQueue.{update, pending}
use bear_sync.Store.Db.{Db, QueueTable}
use bear_sync.Store.Queue.Enqueue.{enqueue_write}
use bear_sync.Store.Queue.Lease.{lease_queue_items}
use bear_sync.Store.Queue.Shape.{IsWellFormed}
use bear_sync.Hub.{empty_db, enqueues, leases, Reachable, start, next, Reachable-IsWellFormed}
use bear_sync.Tests.Data.{item_of, request_of}

abbrev drawn_id : ℕ → String
drawn_id k = "fresh"

abbrev one_item : QueueTable
one_item = record { rows = item_of 1 "k1" update "n1" pending ∷ []; next_id = 2 }

abbrev queued : Db
queued = record empty_db {
  queue = record one_item {
    rows = record (item_of 1 "k1" update "n1" pending) { created_at = "t5" } ∷ [];
  };
}

enqueue_runs :
    enqueue_write empty_db.queue (request_of "k1" update "n1" "b")
    ≡ ok (queued.queue, record (item_of 1 "k1" update "n1" pending) { created_at = "t5" })
unfolding enqueue_write
enqueue_runs = refl

abbrev leased : Db
leased = record queued { queue = (lease_queue_items [] queued.queue "bridge" 60 30).0 }

reaches_queued : Reachable drawn_id queued
reaches_queued = next empty_db queued start (
    enqueues (request_of "k1" update "n1" "b") queued.queue
      (record (item_of 1 "k1" update "n1" pending) { created_at = "t5" }) enqueue_runs)

reaches_leased : Reachable drawn_id leased
reaches_leased = next queued leased reaches_queued (leases "bridge" 60 30)

Reachable-IsWellFormed_example : IsWellFormed leased.queue
Reachable-IsWellFormed_example = Reachable-IsWellFormed drawn_id leased reaches_leased
