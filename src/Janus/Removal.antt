-- ===== src/Janus/Removal.antt =====
-- src/backend/janus/client_pool.rs: `remove_backend`.
pub mod Cleared
use conferences.Base.{ℕ, List, [], ◌∷◌, Bool, true, false, Option, none, some, ◌&&◌, ◌==◌, any}
use conferences.Base.Table.{delete_where}
use conferences.Db.AgentConnection.{bulk_disconnect_by_backend_query}
use conferences.Db.JanusBackend.{Object, delete_query, is_deleted}
use conferences.Db.RtcStream.{stop_running_streams_by_backend}
use conferences.Db.RtcStream
use conferences.Db.Room.{unbounded, included, excluded}
use conferences.Db.Rtc
use conferences.Janus.{Tables, Output, stream_update}

-- An end without a bound gives no event.
abbrev pub has_end_time : RtcStream.Object → Bool
has_end_time o = elim o.time [
  | none ↦ true
  | some t ↦ elim t.end [ unbounded ↦ false | included e ↦ true | excluded e ↦ true ]
]

-- The loop over the streams.
unfoldable pub update_events : List (RtcStream.Object × Rtc.Object) → List Output
update_events [] = []
update_events ((stream, rtc) ∷ rest) =
    let events = update_events rest in
    elim (has_end_time stream) [ true ↦ stream_update rtc.room_id stream ∷ events | false ↦ events ]

-- The delete of the backend's row, with `ON DELETE CASCADE` of its streams.
unfoldable pub delete_backend :
    Object → List Object → List RtcStream.Object → List Object × List RtcStream.Object
unfolding delete_query
delete_backend backend backends streams = (
  (delete_query backend.id backend.session_id backend.handle_id backends).0,
  delete_where
      (λ o.
        any
          (λ b.
            b.id == o.backend_id && is_deleted backend.id backend.session_id backend.handle_id b)
          backends)
      streams,
)

-- `remove_backend`, by whether there is an agent of the broker: the tables of backends and of the rest, and
-- the events. The transaction succeeds.
unfoldable pub remove_backend :
    Object → Bool → ℕ → List Object → Tables → List Object × Tables × List Output
unfolding delete_backend bulk_disconnect_by_backend_query stop_running_streams_by_backend
    update_events
remove_backend backend has_agent now backends t =
    let (rows, left) = delete_backend backend backends t.streams in
    let (streams, stopped) = stop_running_streams_by_backend backend.id now t.rtcs left in
    (
      rows,
      record t {
        agents = (bulk_disconnect_by_backend_query backend.id t.rooms t.agents).0;
        streams = streams;
      },
      elim has_agent [ true ↦ update_events stopped | false ↦ [] ],
    )
