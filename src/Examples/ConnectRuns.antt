-- ===== src/Examples/ConnectRuns.antt =====
-- Connections to the RTCs of a room with the owned policy, and signals over them.
use conferences.Base.{
  ℕ, ◌≡◌, ◌≢◌, ◌↔◌, refl, inl, inr, List, [], ◌∷◌, Option, none, some, Bool, true, false, Has,
  Result, ok, err, arith,
}
use conferences.AppError.{access_denied}
use conferences.Db.Room.{find_by_rtc_id_query}
use conferences.Db.Room
use conferences.Endpoint.ConnectAndSignal.{run}
use conferences.Endpoint.ConnectAndSignal.Intent.{write_other, run_read_sends}
use conferences.Endpoint.Rtc.{Tables}
use conferences.Endpoint.RtcConnect.{
  read_intent, write_intent, Connector, HandleId, connect, open_handle,
}
use conferences.Endpoint.RtcConnect.Backend.{connect_write}
use conferences.Endpoint.RtcSignal.{
  Signaling, offer, ice_candidate, jsep_answer, create, trickle, start_rtc_stream, new_stream,
}
use conferences.Endpoint.RtcSignal.Owner.{create_other}
use conferences.Endpoint.RtcSignal.Trickle.{trickle-create}
use conferences.Examples.MediaRuns.{
  env, room, new_room, backend, backends, rtc_row, rtcs, agents, connection,
}

abbrev tables : Tables
tables = record {
  rooms = room ∷ [];
  rtcs = rtcs;
  agents = record { agents = agents; connections = connection ∷ [] };
  backends = backends;
  streams = [];
  recordings = [];
  writer_configs = [];
  reader_configs = [];
}

abbrev connector : Connector
connector = record {
  get_or_insert = λ b. true;
  create_handle = λ session room stream. some 31;
  random_order = λ bs. bs;
  janus_group = none;
}

-- Every offer is to send and receive.
abbrev signaling : Signaling
signaling = record {
  parse_sdp = λ sdp. some (record { recvonly = false; sendonly = false; sendrecv = true } ∷ []);
  get_or_insert = λ b. true;
  read_stream = λ r. true;
  create_stream = λ r. true;
  trickle_request = λ s h c. true;
  register = true;
  wait = some (ok (some 77));
  max_room_duration = some 5;
  is_mqtt = false;
}

abbrev handle : HandleId
handle = record {
  rtc_stream_id = 60;
  rtc_id = 20;
  janus_handle_id = 31;
  janus_session_id = 91;
  backend_id = 9;
}

create_other_example : (create env signaling handle 8 (some "camera") (offer 2) tables).0 ≡ tables
unfolding conferences.Db.Rtc.find_query conferences.Base.Table.find Room.find_query
create_other_example =
    create_other env signaling handle 8 (some "camera") (offer 2) tables (rtc_row 20 7) room refl
      refl refl (ground arith)

abbrev fresh_tables : Tables
fresh_tables = record tables { rooms = new_room ∷ [] }

connect_write_example :
    (p : Room.Object) × (find_by_rtc_id_query 20 rtcs
        (connect env connector write_intent 60 7 20 fresh_tables).0.rooms
      ≡ some p)
    × (p.backend_id ≡ some 9)
unfolding connect conferences.Base.Table.find conferences.Base.Sorting.order_by
connect_write_example =
    connect_write env connector 60 7 20 fresh_tables
      (connect env connector write_intent 60 7 20 fresh_tables).0 handle refl

write_other_example :
    (connect env connector write_intent 60 8 20 tables ≡ (tables, err access_denied))
    × (run env connector signaling write_intent 60 8 20 (some "camera") 2 tables
        ≡ (tables, err access_denied))
unfolding conferences.Endpoint.Helpers.find_room_by_rtc_id conferences.Db.Rtc.find_query
    conferences.Base.Table.find
write_other_example =
    write_other env connector signaling 60 8 20 (some "camera") 2 tables room (rtc_row 20 7) refl
      refl refl (ground arith)

-- Agent 8 sends to the RTC of agent 7.
run_read_sends_example :
    let sender : ℕ = 8 in
    Has
      (new_stream handle 8 "camera" 110)
      (run env connector signaling read_intent 60 8 20 (some "camera") 2 tables).0.streams
    × (sender ≢ 7)
unfolding conferences.Endpoint.Helpers.find_room_by_rtc_id conferences.Db.Rtc.find_query
    conferences.Base.Table.find conferences.Endpoint.RtcConnect.authorize_connect open_handle
    conferences.Endpoint.RtcSignal.is_sdp_recvonly start_rtc_stream
run_read_sends_example =
    run_read_sends env connector signaling 60 8 20 "camera" 2 tables
      (open_handle env connector read_intent 60 8 20 room tables).0
      (start_rtc_stream env signaling handle 8 (some "camera") room
        (open_handle env connector read_intent 60 8 20 room tables).0).0
      room (rtc_row 20 7) handle (backend 9 10) tt tt refl refl refl (ground arith) refl refl refl
      refl

abbrev connected_handle : HandleId
connected_handle = record handle { janus_handle_id = 30 }

trickle-create_example : (trickle env signaling connected_handle 7 5 tables ≡ ok tt) ↔ (
    create env signaling connected_handle 7 none (ice_candidate 5) tables
    ≡ (tables, ok (jsep_answer none)))
trickle-create_example = trickle-create env signaling connected_handle 7 5 tables none

-- Both sides of it hold.
trickle_sent : trickle env signaling connected_handle 7 5 tables ≡ ok tt
unfolding trickle conferences.Base.Table.find
trickle_sent = refl
