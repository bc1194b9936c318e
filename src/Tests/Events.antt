-- ===== src/Tests/Events.antt =====
-- The events table at concrete inputs.
use z_agent.Base.{refl, none, some, [], ◌∷◌, arith}
use z_agent.Base.Dict
use z_agent.Contracts.{StepEvent, status}
use z_agent.Ingest.{EventRow, Thread, Db, collides, process}
use z_agent.Ingest.Table.{Inv, process-Inv}
use z_agent.Ingest.Delivery.{stored_db}

abbrev earlier : EventRow
earlier = record {
  run_id = "r1";
  thread_id = "t1";
  seq = 4;
  kind = status;
  title = "boot";
  body = "";
  event_uid = some "u1";
}

abbrev lead : Thread
lead = record { next_seq = 5; session_id = none }

abbrev table : Db
table = record { events = earlier ∷ []; threads = ("t1", lead) ∷ []; runs = ("r1", 0) ∷ [] }

abbrev turn_complete : StepEvent
turn_complete = record {
  run_id = "r1";
  thread_id = "t1";
  seq = 4;
  kind = status;
  title = "turn complete";
  session_id = some "s1";
  detail_kind = none;
  body = "";
  event_uid = some "u2";
}

table-Inv : Inv table
unfolding collides Dict.get
table-Inv = record { unique = (tt, tt); below = ((λ t p. ground arith), tt); owned = (refl, tt) }

process-Inv_example : Inv (process [] (some turn_complete) "r1" 7 table).0
process-Inv_example = process-Inv [] (some turn_complete) "r1" 7 table table-Inv

abbrev after : Db
after = stored_db [] turn_complete "r1" 7 lead table
