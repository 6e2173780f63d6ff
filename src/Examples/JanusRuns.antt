-- ===== src/Examples/JanusRuns.antt =====
-- Events of Janus, and its pool of clients.
use conferences.Base.{
  ℕ, ◌≡◌, ◌≢◌, ◌⊎◌, refl, inl, inr, List, [], ◌∷◌, ◌++◌, Option, none, some, Bool, true, false,
  ◌==◌, All, Has, Result, ok, err, if◌then◌else◌, same_text, arith,
}
use conferences.Base.Table.{find}
use conferences.AppError.{capacity_exceeded}
use conferences.Db.JanusBackend.{find_query}
use conferences.Db.JanusBackend
use conferences.Db.Recording
use conferences.Db.Room.{included, excluded}
use conferences.Db.RtcStream.{has_id, is_active, stopped}
use conferences.Db.RtcStream
use conferences.Janus.{
  HandleEvent, IncomingEvent, upload_stream, hang_up, detached, event, Json, Tables, Context,
  Output, room_upload, stream_update, http, RoomUploadEventData,
}
use conferences.Janus.Answers.{deliver}
use conferences.Janus.Complete.{IsTrue}
use conferences.Janus.Ending.{hang_up_ends}
use conferences.Janus.Events.{handle_event}
use conferences.Janus.InternalApi.{Config, Request, StreamCallback}
use conferences.Janus.InternalApi.Callback.{fired_at, fired_at-deliver}
use conferences.Janus.Online.{handle_online}
use conferences.Janus.Online
use conferences.Janus.Online.Registered.{HasClient, handle_online_registers}
use conferences.Janus.Polling.{Turn, events, session_not_found, polling, retries, start_polling}
use conferences.Janus.Polling.Retries.{
  IsBroken, failures, start_polling-IsBroken, start_polling-failures,
}
use conferences.Janus.Pool.{Clients, new, get_or_insert, remove_client}
use conferences.Janus.Pool.Kept.{IsKept, start, inserting, removing, Reachable-IsKept}
use conferences.Janus.Removal.{remove_backend}
use conferences.Janus.Told.{handle_event-IsTrue}
use conferences.Examples.MediaRuns.{room, backend, backends, rtcs, agents, connection}

-- The values 1 and 3 are texts. Every object has the status 200, the id 20 and one dump.
abbrev json : Json
json = record {
  get = λ v key.
      if same_text key "status"
      then some 1
      else (if same_text key "id"
          then some 20
          else (if same_text key "mjr_dumps_uris" then some 2 else none));
  as_str = λ v. if v == 1 then some "200" else none;
  rtc_id = λ v. some v;
  uris = λ v. some (v ∷ []);
  speaking = λ v. none;
}

abbrev context : Context
context = record {
  now = 100;
  db_now = 110;
  own_ip_addr = 1;
  json = json;
  uploads = record {
    janus_group = none;
    shared_configs = λ audience. none;
    owned_configs = λ audience. some (record { backend = "example"; bucket = "records" });
    get_or_insert = λ b. true;
    upload_stream = λ s h rtc_id config. true;
  };
}

-- The stream on the RTC 20 has ended; another agent has connected to the RTC since.
abbrev ended : RtcStream.Object
ended = record {
  id = 5;
  handle_id = 30;
  rtc_id = 20;
  backend_id = 9;
  label = "camera";
  sent_by = 7;
  time = some (record { start = included 60; end = excluded 80 });
  created_at = 40;
}

abbrev tables : Tables
tables = record {
  agents = record {
    agents = agents;
    connections = record connection { agent_id = 5; handle_id = 31 } ∷ [];
  };
  streams = ended ∷ [];
  rtcs = rtcs;
  rooms = room ∷ [];
  recordings =
      record {
        rtc_id = 20;
        started_at = none;
        segments = none;
        status = Recording.in_progress;
        mjr_dumps_uris = none;
      }
      ∷ [];
}

-- Janus confirms the upload of the only recording of room 2.
abbrev confirmation : IncomingEvent
confirmation = event (record {
  transaction = some (upload_stream 20);
  session_id = 91;
  opaque_id = none;
  data_ = some 7;
  jsep = none;
})

abbrev uploaded : Tables × List Output
unfolding handle_event
uploaded = handle_event context confirmation tables

abbrev told : RoomUploadEventData
told = record {
  id = 2;
  rtcs =
      record {
        id = 20;
        status = Recording.ready;
        uri = some (record { bucket = "records"; prefix = some 50; rtc_id = 20 });
        created_by = 7;
        mjr_dumps_uris = some (2 ∷ []);
      }
      ∷ [];
}

handle_event-IsTrue_example : All (IsTrue uploaded.0) (room_upload "example.org" told ∷ [])
unfolding handle_event find conferences.Base.Table.update_where
handle_event-IsTrue_example = handle_event-IsTrue context confirmation tables

abbrev late : HandleEvent
late = record { session_id = 91; sender = 30; opaque_id = record { stream_id = 5; room_id = 2 } }

abbrev after_hang_up : Tables × List Output
unfolding handle_event
after_hang_up = handle_event context (hang_up late) tables

-- The handle of the stream that has ended is detached late.
hang_up_ends_example :
    (handle_event context (detached late) tables ≡ after_hang_up)
    × (find (has_id 5) after_hang_up.0.streams ≡ some (stopped 110 ended))
    × (is_active (stopped 110 ended) ≡ false)
    × All (λ c. (c.rtc_id == 20) ≡ false) after_hang_up.0.agents.connections
    × (after_hang_up.1 ≡ stream_update 2 (stopped 110 ended) ∷ [])
unfolding handle_event find
hang_up_ends_example =
    hang_up_ends context late tables ended (record { start = included 60; end = excluded 80 }) refl
      refl

abbrev one_client : Clients
unfolding get_or_insert new
one_client = (get_or_insert (λ url. true) (backend 9 10) (new none)).0

abbrev no_client : Clients
unfolding remove_client
no_client = remove_client (backend 9 10) one_client

Reachable-IsKept_example : IsKept no_client
unfolding remove_client get_or_insert new
Reachable-IsKept_example =
    Reachable-IsKept no_client
      (removing (backend 9 10) (inserting (λ url. true) (backend 9 10) (start none)))

abbrev lost : List Turn
lost = (false, events (4 ∷ [])) ∷ (false, session_not_found) ∷ []

start_polling-IsBroken_example : IsBroken lost
unfolding start_polling
start_polling-IsBroken_example = start_polling-IsBroken json (λ e. none) lost refl

start_polling-failures_example :
    (start_polling json (λ e. none) ((false, events (4 ∷ [])) ∷ failures retries [])).1 ≢ polling
start_polling-failures_example =
    start_polling-failures json (λ e. none) ((false, events (4 ∷ [])) ∷ []) []

-- The backend that is removed has registered again, with the session 95.
abbrev again : JanusBackend.Object
again = record (backend 9 10) { session_id = 95 }

abbrev removed : List JanusBackend.Object × Tables × List Output
unfolding remove_backend
removed = remove_backend (backend 9 10) true 110 (again ∷ []) tables

-- The backend that is removed is the one that is registered: its streams go with it.
removed_at_once :
    let (rows, after, told) = remove_backend (backend 9 10) true 110 (backend 9 10 ∷ []) tables in
    (rows ≡ []) × (after.streams ≡ []) × (told ≡ [])
unfolding remove_backend conferences.Base.Table.delete_where conferences.Base.Table.update_where
removed_at_once = (refl, refl, refl)

abbrev janus : Online.Janus
janus = record {
  is_url = λ url. true;
  service_ping = λ s h. s == 95;
  create_session = some 95;
  create_handle = λ s. some 96;
}

abbrev online : Online.Event
online = record {
  capacity = some 10;
  balancer_capacity = none;
  group = none;
  janus_url = "http://example.org";
  agent_id = 9;
}

abbrev known : Online.State
unfolding new
known = record { backends = backends; clients = new none }

abbrev registered : Online.State
unfolding handle_online
registered = (handle_online janus online 110 known).0

-- The session 91 of the backend 9 does not answer any more.
handle_online_registers_example :
    (b : JanusBackend.Object) × (find_query registered.backends 9 ≡ some b)
    × ((b.session_id == 95) ≡ true)
    × HasClient b registered.clients
unfolding handle_online find known conferences.Base.Table.upsert
handle_online_registers_example = handle_online_registers janus online 110 known refl

-- The bodies of calls are callbacks.
abbrev config : Config StreamCallback
config = record {
  token = 5 ∷ [];
  account_label = λ token. elim token [ [] ↦ none | t ∷ ts ↦ some "conference" ];
  parse_online = λ body. none;
  parse_callback = λ body. some body;
  callback_body = λ b. b;
  janus = janus;
  db_now = 110;
}

abbrev callback : StreamCallback
callback = record { response = err capacity_exceeded; id = 3 }

abbrev anonymous : Request StreamCallback
anonymous = record { path = "/callbacks/stream"; authorization = none; body = callback }

-- The replica 1 handles an answer for the replica 2.
fired_at-deliver_example :
    fired_at config (6 ∷ []) known context (deliver context (http 3 2) (err capacity_exceeded))
    ≡ (2, callback) ∷ []
fired_at-deliver_example =
    fired_at-deliver config (6 ∷ []) known context 3 2 (err capacity_exceeded) refl (λ b. refl)
