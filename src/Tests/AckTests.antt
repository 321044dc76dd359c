-- ===== src/Tests/AckTests.antt =====
-- Acknowledgements at concrete inputs.
use bear_sync.Prelude.{false, some, [], ◌∷◌, ◌≡◌, refl, ok, Result}
use bear_sync.Models.Note.{Note, pending_to_bear}
use bear_sync.Models.Sync.{SyncAckItem, AckStatus}
use bear_sync.Store.Db.{Db}
use bear_sync.Store.Ack.{ack_single_item, ack_queue_items}
use bear_sync.Store.Ack.Laws.{ack_again}
use bear_sync.Store.Ack.Settled.{Settled, ack_queue_items-Settled}
use bear_sync.Tests.Data.{note_of, three_items, db_of}

-- The note n2 waits for its leased trash.
abbrev trashing : Note
trashing = note_of "n2" (some "B2") "Title" "text" pending_to_bear

abbrev pub before_ack : Db
before_ack = db_of (trashing ∷ []) three_items

abbrev pub done : SyncAckItem
done = record {
  queue_id = 2;
  idempotency_key = "k2";
  status = AckStatus.applied;
  bear_id = "";
  bear_modified_at = "t7";
  error = "";
  conflict_resolved = false;
}

abbrev value_or : Db → Result Db → Db
value_or d (ok x) = x
value_or d _ = d

abbrev pub acked : Db
unfolding ack_single_item
acked = value_or before_ack (ack_single_item 70 before_ack done)

ack_runs : ack_single_item 70 before_ack done ≡ ok acked
unfolding ack_single_item
ack_runs = refl

batch_runs : ack_queue_items 70 before_ack (done ∷ []) ≡ ok acked
unfolding ack_queue_items
batch_runs = refl

ack_again_example : ack_single_item 80 acked done ≡ ok acked
ack_again_example = ack_again 70 80 before_ack done ack_runs

ack_queue_items-Settled_example : Settled false "n2" trashing acked
ack_queue_items-Settled_example =
    ack_queue_items-Settled 70 before_ack (done ∷ []) "n2" refl batch_runs
