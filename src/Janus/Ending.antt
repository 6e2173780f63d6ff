-- ===== src/Janus/Ending.antt =====
-- A stream that comes up, and one whose handle hangs up or is detached.
use conferences.Base.{
  ℕ, ◌≡◌, refl, ap, ◌>>=◌, ◌∙◌, List, [], ◌∷◌, none, some, true, false, ◌==◌, All, Result, ok, err,
}
use conferences.Base.Table.{find}
use conferences.Base.Table.Laws.{delete_where-All, find_passes, find-update_where}
use conferences.Db.AgentConnection.{
  has_handle, set_status, connected, update_query, bulk_disconnect_by_rtc_query, delete_connections,
}
use conferences.Db.AgentConnection
use conferences.AppError.{ErrorKind}
use conferences.Db.Room.{Time}
use conferences.Db.Room
use conferences.Db.RtcStream.{has_id, started, stopped, stopped_time, is_active, is_active_time}
use conferences.Db.RtcStream
use conferences.Db.RtcStream.Lifetime.{find-updated, stopped-is_active}
use conferences.Endpoint.Helpers.{find_room_by_rtc_id, opened}
use conferences.Janus.{
  OpaqueId, HandleEvent, web_rtc_up, hang_up, detached, Tables, Context, Output, stream_update,
}
use conferences.Janus.Events.{
  started_event, handle_web_rtc_up, stop_stream_evt, handle_hangup_detach, handle_event_impl,
  handle_event, or_empty,
}

-- What is done for a stream that has a time.
stop_stream_evt-running :
    (id : OpaqueId) (handle_id : ℕ) (o : RtcStream.Object) (agents : AgentConnection.Tables)
    (time : Time)
    → o.time ≡ some time
    → stop_stream_evt id handle_id (some o) agents
      ≡ ((bulk_disconnect_by_rtc_query o.rtc_id agents).0, stream_update id.room_id o ∷ [])
unfolding stop_stream_evt
stop_stream_evt-running id handle_id o agents time k =
    let done : AgentConnection.Tables × List Output =
      ((bulk_disconnect_by_rtc_query o.rtc_id agents).0, stream_update id.room_id o ∷ []) in
    ap (λ x. elim x [ none ↦ (agents, []) | some _ ↦ done ]) k

-- Hanging up and detaching do the same. If the stream of the handle is there and has a time, even one that
-- has ended, then its end is set anew, the room is told of it, and every connection to its RTC is
-- deleted, not only the one that has this handle.
pub hang_up_ends :
    (context : Context) (inev : HandleEvent) (t : Tables) (o : RtcStream.Object) (time : Time)
    → find (has_id inev.opaque_id.stream_id) t.streams ≡ some o
    → o.time ≡ some time
    → let (after, outputs) = handle_event context (hang_up inev) t in
      let ended = stopped context.db_now o in
      (handle_event context (detached inev) t ≡ (after, outputs))
      × (find (has_id inev.opaque_id.stream_id) after.streams ≡ some ended)
      × (is_active ended ≡ false)
      × All (λ c. (c.rtc_id == o.rtc_id) ≡ false) after.agents.connections
      × (outputs ≡ stream_update inev.opaque_id.room_id ended ∷ [])
unfolding handle_event handle_event_impl handle_hangup_detach RtcStream.stop stopped stopped_time
    bulk_disconnect_by_rtc_query delete_connections
hang_up_ends context inev t o time h k =
    let ended = stopped context.db_now o in
    let has_time = ap (stopped_time context.db_now) k in
    rw (h, stop_stream_evt-running inev.opaque_id inev.sender ended t.agents _ has_time)
      (
        refl,
        find-updated inev.opaque_id.stream_id (stopped context.db_now) t.streams o (λ x. refl) h,
        stopped-is_active context.db_now o,
        delete_where-All (λ c. c.rtc_id == o.rtc_id) t.agents.connections,
        refl,
      )

or_empty-bind :
    (r : Result ErrorKind Room.Object) (o : RtcStream.Object)
    → or_empty (r >>= λ room. ok (stream_update room.id o ∷ []))
      ≡ elim r [ ok room ↦ stream_update room.id o ∷ [] | err e ↦ [] ]
or_empty-bind (ok room) o = refl
or_empty-bind (err e) o = refl

-- If the stream of a handle that comes up is there, it is active from now on, and the connection of the
-- handle, if there is one, is connected, whatever the room is like. The room is told if it is open.
pub web_rtc_up_starts :
    (context : Context) (inev : HandleEvent) (t : Tables) (o : RtcStream.Object)
    (c : AgentConnection.Object)
    → find (has_id inev.opaque_id.stream_id) t.streams ≡ some o
    → find (has_handle inev.sender) t.agents.connections ≡ some c
    → let (after, outputs) = handle_event context (web_rtc_up inev) t in
      let running = started context.db_now o in
      (find (has_id inev.opaque_id.stream_id) after.streams ≡ some running)
      × (is_active running ≡ true)
      × (find (has_handle inev.sender) after.agents.connections ≡ some (set_status connected c))
      × (outputs ≡ elim (find_room_by_rtc_id o.rtc_id opened context.now t.rtcs t.rooms) [
        | ok room ↦ stream_update room.id running ∷ []
        | err e ↦ []
      ])
unfolding handle_event handle_event_impl handle_web_rtc_up started_event RtcStream.start
    update_query is_active is_active_time
web_rtc_up_starts context inev t o c h k = (
  find-updated inev.opaque_id.stream_id (started context.db_now) t.streams o (λ x. refl) h,
  refl,
  find-update_where (has_handle inev.sender) (has_handle inev.sender) (set_status connected)
        t.agents.connections (λ x. refl)
      ∙ rw (k, find_passes (has_handle inev.sender) t.agents.connections c k) refl,
  rw h (
      or_empty-bind (find_room_by_rtc_id o.rtc_id opened context.now t.rtcs t.rooms)
        (started context.db_now o)),
)
