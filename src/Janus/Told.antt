-- ===== src/Janus/Told.antt =====
-- No branch of the handling of events tells of an upload too early.
use conferences.Base.{
  ◌>>=◌, ℕ, List, [], Option, none, some, All, Result, ok, err, ok_or, Option-cases, Bool-cases,
  inl, inr, ◌==◌,
}
use conferences.Db.Recording
use conferences.Db.Rtc
use conferences.Endpoint.Helpers.{find_room_by_rtc_id, any_time}
use conferences.AppError.{ErrorKind, rtc_not_found, message_parsing_failed, db_query_failed}
use conferences.Janus.{EventResponse, Tables, Context, Output}
use conferences.Janus.Answers.{is_text}
use conferences.Janus.Upload.{
  with_recordings, finish, missing, uploaded, upload_status, upload_stream_impl,
}
use conferences.Janus.{
  Output, TransactionKind, IncomingEvent, StreamTransaction, mqtt, http, OpaqueId, web_rtc_up,
  media, hang_up, slow_link, detached, timeout, event, agent_leave, create_stream, read_stream,
  upload_stream, update_reader_config, update_writer_config, agent_speaking, service_ping, Json,
}
use conferences.Db.AgentConnection
use conferences.Db.RtcStream
use conferences.Endpoint.Helpers.{opened}
use conferences.Janus.Answers.{answer, create_status, read_status, deliver, agent_speaking_impl}
use conferences.Janus.Events.{
  started_event, handle_web_rtc_up, stop_stream_evt, handle_hangup_detach, handle_transaction,
  handle_event_impl, handle_event, or_empty,
}
use conferences.Janus.Complete.{IsTrue, AllTrue, announce-AllTrue}

-- What goes on after a result that is no error.
after_ok-AllTrue :
    {E A : Type 0} (r : Result E A) (t : Tables) (f : E → ErrorKind)
    (k : A → Tables × Result ErrorKind (List Output))
    → ((a : A) → AllTrue (k a))
    → AllTrue (elim r [ err e ↦ (t, err (f e)) | ok a ↦ k a ])
after_ok-AllTrue (ok a) t f k h = h a
after_ok-AllTrue (err e) t f k h = tt

finish-AllTrue :
    (context : Context) (rtc_id : ℕ) (uris : List ℕ) (t : Tables)
    → AllTrue (finish context rtc_id uris t)
unfolding finish
finish-AllTrue context rtc_id uris t =
    after_ok-AllTrue (ok_or (Rtc.find_query t.rtcs rtc_id) rtc_not_found) t (λ e. e) _
      (λ rtc.
        after_ok-AllTrue (find_room_by_rtc_id rtc.id any_time context.now t.rtcs t.rooms) t (λ e. e)
          _
          (λ room.
            let (rows, updated) =
              Recording.update_query rtc_id (some Recording.ready) (some uris) t.recordings in
            after_ok-AllTrue updated (with_recordings t rows) (λ e. db_query_failed) _
              (λ o. announce-AllTrue context room (with_recordings t rows))))

missing-AllTrue : (rtc_id : ℕ) (t : Tables) → AllTrue (missing rtc_id t)
unfolding missing
missing-AllTrue rtc_id t =
    let (rows, updated) =
      Recording.update_query rtc_id (some Recording.missing) none t.recordings in
    after_ok-AllTrue updated (with_recordings t rows) (λ e. db_query_failed) _ (λ o. tt)

upload_status-AllTrue :
    (context : Context) (rtc_id plugin_data status : ℕ) (t : Tables)
    → AllTrue (upload_status context rtc_id plugin_data status t)
unfolding upload_status
upload_status-AllTrue context rtc_id plugin_data status t =
    elim (Bool-cases (is_text context.json "200" status)) [
      | inr h ↦ elim (Bool-cases (is_text context.json "404" status)) [
        | inr k ↦ rw (h, k) tt
        | inl k ↦ rw (h, k) (missing-AllTrue rtc_id t)
      ]
      | inl h ↦ rw (h) (
          after_ok-AllTrue (uploaded context.json plugin_data) t (λ e. e) _
            (λ o.
              elim o
                as (λ k.
                  AllTrue (elim k [ none ↦ (t, ok []) | some x ↦ finish context x.0 x.1 t ])) [
                    | none ↦ tt
                    | some (id, uris) ↦ finish-AllTrue context id uris t
                  ]))
    ]

pub upload_stream_impl-AllTrue :
    (context : Context) (rtc_id : ℕ) (resp : EventResponse) (t : Tables)
    → AllTrue (upload_stream_impl context rtc_id resp t)
unfolding upload_stream_impl
upload_stream_impl-AllTrue context rtc_id resp t =
    after_ok-AllTrue (ok_or resp.data_ message_parsing_failed) t (λ e. e) _
      (λ plugin_data.
        after_ok-AllTrue (ok_or (context.json.get plugin_data "status") message_parsing_failed) t
          (λ e. e) _ (λ status. upload_status-AllTrue context rtc_id plugin_data status t))

deliver-IsTrue :
    (context : Context) (tn : StreamTransaction) (r : Result ErrorKind ℕ) (t : Tables)
    → IsTrue t (deliver context tn r)
unfolding deliver
deliver-IsTrue context (mqtt reqp) r t = tt
deliver-IsTrue context (http id addr) r t = elim (Bool-cases (context.own_ip_addr == addr)) [
  | inl h ↦ rw (h) tt
  | inr h ↦ rw (h) tt
]

-- A chain of results that changes nothing.
bind-AllTrue :
    {A : Type 0} (r : Result ErrorKind A) (t : Tables) (k : A → Result ErrorKind (List Output))
    → ((a : A) → AllTrue (t, k a))
    → AllTrue (t, r >>= k)
bind-AllTrue (ok a) t k h = h a
bind-AllTrue (err e) t k h = tt

answer-AllTrue :
    (context : Context) (check : Json → ℕ → Result ErrorKind (Unit {0})) (tn : StreamTransaction)
    (resp : EventResponse) (t : Tables)
    → AllTrue (t, answer context check tn resp)
unfolding answer
answer-AllTrue context check tn resp t =
    bind-AllTrue (ok_or resp.data_ message_parsing_failed) t _
      (λ d. (deliver-IsTrue context tn _ t, tt))

agent_speaking_impl-AllTrue :
    (context : Context) (resp : EventResponse) (t : Tables)
    → AllTrue (t, agent_speaking_impl context resp)
unfolding agent_speaking_impl
agent_speaking_impl-AllTrue context resp t =
    bind-AllTrue (ok_or resp.data_ message_parsing_failed) t _ (λ d.
      bind-AllTrue (ok_or (context.json.speaking d) message_parsing_failed) t _
        (λ n. bind-AllTrue (ok_or resp.opaque_id message_parsing_failed) t _ (λ o. (tt, tt))))

started_event-AllTrue :
    (context : Context) (t after : Tables) (o : Option RtcStream.Object)
    → AllTrue (after, started_event context t o)
unfolding started_event
started_event-AllTrue context t after none = tt
started_event-AllTrue context t after (some o) =
    bind-AllTrue (find_room_by_rtc_id o.rtc_id opened context.now t.rtcs t.rooms) after _
      (λ room. (tt, tt))

stop_stream_evt-All :
    (o : OpaqueId) (handle_id : ℕ) (s : Option RtcStream.Object) (agents : AgentConnection.Tables)
    (t : Tables)
    → All (IsTrue t) (stop_stream_evt o handle_id s agents).1
unfolding stop_stream_evt
stop_stream_evt-All o handle_id none agents t = tt
stop_stream_evt-All o handle_id (some s) agents t = elim (Option-cases s.time) [
  | inl h ↦ rw (h) tt
  | inr (time, h) ↦ rw (h) (tt, tt)
]

handle_transaction-AllTrue :
    (context : Context) (kind : Option TransactionKind) (resp : EventResponse) (t : Tables)
    → AllTrue (handle_transaction context kind resp t)
unfolding handle_transaction
handle_transaction-AllTrue context (some (create_stream tn)) resp t =
    answer-AllTrue context create_status tn resp t
handle_transaction-AllTrue context (some (read_stream tn)) resp t =
    answer-AllTrue context read_status tn resp t
handle_transaction-AllTrue context (some (upload_stream rtc_id)) resp t =
    upload_stream_impl-AllTrue context rtc_id resp t
handle_transaction-AllTrue context (some agent_speaking) resp t =
    agent_speaking_impl-AllTrue context resp t
handle_transaction-AllTrue context (some agent_leave) resp t = tt
handle_transaction-AllTrue context (some update_reader_config) resp t = tt
handle_transaction-AllTrue context (some update_writer_config) resp t = tt
handle_transaction-AllTrue context (some service_ping) resp t = tt
handle_transaction-AllTrue context none resp t = tt

handle_event_impl-AllTrue :
    (context : Context) (payload : IncomingEvent) (t : Tables)
    → AllTrue (handle_event_impl context payload t)
unfolding handle_event_impl handle_web_rtc_up handle_hangup_detach
handle_event_impl-AllTrue context (web_rtc_up e) t =
    started_event-AllTrue context t (handle_event_impl context (web_rtc_up e) t).0 _
handle_event_impl-AllTrue context (hang_up e) t =
    stop_stream_evt-All e.opaque_id e.sender _ t.agents (handle_event_impl context (hang_up e) t).0
handle_event_impl-AllTrue context (detached e) t =
    stop_stream_evt-All e.opaque_id e.sender _ t.agents (handle_event_impl context (detached e) t).0
handle_event_impl-AllTrue context (media e) t = tt
handle_event_impl-AllTrue context (slow_link e) t = tt
handle_event_impl-AllTrue context (timeout s) t = tt
handle_event_impl-AllTrue context (event resp) t =
    handle_transaction-AllTrue context resp.transaction resp t

or_empty-All :
    (t : Tables) (r : Result ErrorKind (List Output)) → AllTrue (t, r) → All (IsTrue t) (or_empty r)
or_empty-All t (ok outputs) h = h
or_empty-All t (err e) h = tt

-- Whatever event of Janus is handled, if a `room.upload` event is sent then in the tables after it every
-- recording of the room is ready, and the event lists the RTCs of the room that have a recording, each as
-- ready and with the place where it is stored.
pub handle_event-IsTrue :
    (context : Context) (payload : IncomingEvent) (t : Tables)
    → All (IsTrue (handle_event context payload t).0) (handle_event context payload t).1
unfolding handle_event
handle_event-IsTrue context payload t =
    or_empty-All (handle_event_impl context payload t).0 (handle_event_impl context payload t).1
      (handle_event_impl-AllTrue context payload t)
