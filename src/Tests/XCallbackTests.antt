-- ===== src/Tests/XCallbackTests.antt =====
-- The driver of bear-xcall at concrete inputs.
use bear_sync.Prelude.{false, none, [], ◌∷◌, ◌≡◌, refl}
use bear_sync.Models.WriteQueue.{WriteQueueItem, trash, pending, text, object}
use bear_sync.Bridge.Bear.{gives, Done}
use bear_sync.Bridge.Actions.{applies, apply_trash}
use bear_sync.BearDb.Tables.{BearTables}
use bear_sync.BearDb.Lookups.{note_by_uuid}
use bear_sync.Bridge.Payload.{any_string}
use bear_sync.XCallback.Driver
use bear_sync.XCallback.Driver.{Machine, percent_spaces}
use bear_sync.XCallback.RealBear.{Surroundings, real_bear}
use bear_sync.XCallback.Called.{
  trashes, action_of, is_done, apply_change, WasDone, apply_action-WasDone,
}
use bear_sync.Bridge.Bear.{Problem}
use bear_sync.Tests.Data.{item_of}
use bear_sync.Tests.BearDbTests.{bear_tables}

plus_is_escaped : percent_spaces "a+b" ≡ "a%20b"
unfolding percent_spaces
plus_is_escaped = refl

-- bear-xcall answers with no output.
abbrev machine : Machine
machine = record {
  World = BearTables;
  run = λ w c. (w, gives []);
  encode = λ params. "id=B2&token=a+b";
  base64 = λ bytes. "";
  unmarshal = λ bytes. none;
}

abbrev no_problem : Problem
no_problem = record { is_bear = false; msg = "" }

abbrev around : Surroundings machine
around = record {
  tables = λ query w. gives w;
  sleep = λ w. w;
  download = λ k. gives [];
  created_after = λ w. record { seconds = 0; nanos = 0 };
  null_id = no_problem;
  describe = λ f. "";
  rfc3339 = λ t. "";
}

abbrev trash_b2 : WriteQueueItem
trash_b2 = record (item_of 5 "k5" trash "n2" pending) {
  payload = object (("bear_id", text "B2") ∷ []);
}

trash_runs :
    apply_change (real_bear machine around "token") trashes bear_tables trash_b2
    ≡ (bear_tables, applies Done.done)
unfolding apply_trash any_string note_by_uuid Driver.trash
trash_runs = refl

apply_action-WasDone_example :
    WasDone machine around "token"
      (action_of trashes)
      (is_done trashes)
      bear_tables
      trash_b2
      bear_tables
apply_action-WasDone_example =
    apply_action-WasDone machine around "token" trashes bear_tables bear_tables trash_b2 Done.done
      trash_runs
