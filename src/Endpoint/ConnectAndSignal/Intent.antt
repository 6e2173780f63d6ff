-- ===== src/Endpoint/ConnectAndSignal/Intent.antt =====
-- The intent of a request and the offer that comes with it.
use Prim.Native.String.{String}
use conferences.Base.{
  ℕ, ◌≡◌, ◌≢◌, refl, sym, inl, inr, List, [], ◌∷◌, ◌++◌, Option, some, false, ◌==◌, ==→eq, Has,
  Has-append_right, ok, err, Result-cases, Option-cases, Bool-cases, arith,
}
use conferences.AppError.{access_denied}
use conferences.Base.Table.{find}
use conferences.Db.JanusBackend
use conferences.Db.Room
use conferences.Db.Rtc.{owned}
use conferences.Db.Rtc
use conferences.Db.RtcStream
use conferences.Db.RtcReaderConfig
use conferences.Db.RtcWriterConfig
use conferences.Endpoint.Handler.{Env}
use conferences.Endpoint.Helpers.{opened, find_room_by_rtc_id}
use conferences.Endpoint.Rtc.{Tables}
use conferences.Endpoint.RtcConnect.{
  read_intent, write_intent, Connector, HandleId, check_room_policy, authorize_connect, open_handle,
  connect,
}
use conferences.Endpoint.RtcSignal.{
  Signaling, is_sdp_recvonly, start_rtc_stream, bound_room, new_stream, stream_request,
}
use conferences.Endpoint.ConnectAndSignal.{await_stream, signal, create_recording, run_allowed, run}

write_denied :
    (agent_id rtc_id : ℕ) (rtcs : List Rtc.Object) (room : Room.Object) (r : Rtc.Object)
    → Rtc.find_query rtcs rtc_id ≡ some r
    → room.rtc_sharing_policy ≡ owned
    → agent_id ≢ r.created_by
    → check_room_policy write_intent agent_id rtc_id rtcs room ≡ err access_denied
unfolding check_room_policy
write_denied agent_id rtc_id rtcs room r e p n = elim (Bool-cases (r.created_by == agent_id)) [
  | inl t ↦ elim (n (sym (==→eq r.created_by agent_id t))) [ ]
  | inr f ↦ rw (check_room_policy, p, e, f) refl
]

-- With the intent to write, nobody but the creator connects to an RTC of a room with the owned policy,
-- with an offer or without one: nothing is changed.
pub write_other :
    (env : Env) (c : Connector) (s : Signaling) (stream_id agent_id rtc_id : ℕ)
    (label : Option String) (sdp : ℕ) (t : Tables) (room : Room.Object) (r : Rtc.Object)
    → find_room_by_rtc_id rtc_id opened (env.clock 0) t.rtcs t.rooms ≡ ok room
    → Rtc.find_query t.rtcs rtc_id ≡ some r
    → room.rtc_sharing_policy ≡ owned
    → agent_id ≢ r.created_by
    → (connect env c write_intent stream_id agent_id rtc_id t ≡ (t, err access_denied))
      × (run env c s write_intent stream_id agent_id rtc_id label sdp t ≡ (t, err access_denied))
unfolding connect run
write_other env c s stream_id agent_id rtc_id label sdp t room r f e p n =
    let denied = write_denied agent_id rtc_id t.rtcs room r e p n in
    (rw (connect, f, denied) refl, rw (run, f, denied) refl)

-- The transaction writes the stream.
start_rtc_stream-Has :
    (env : Env) (s : Signaling) (h : HandleId) (agent_id : ℕ) (label : String) (room : Room.Object)
    (t u : Tables) (x : Unit {0})
    → start_rtc_stream env s h agent_id (some label) room t ≡ (u, ok x)
    → Has (new_stream h agent_id label env.db_now) u.streams
unfolding start_rtc_stream RtcStream.insert_query
start_rtc_stream-Has env s h agent_id label room t u x e =
    let row = new_stream h agent_id label env.db_now in
    elim (Result-cases (bound_room s.max_room_duration (env.clock 1) room t.rooms).1) [
      | inr (d, z) ↦ ground (arith, e, z)
      | inl (y, z) ↦ elim (Option-cases (find (RtcStream.has_id h.rtc_stream_id) t.streams)) [
        | inr (o, q) ↦ ground (arith, e, z, q)
        | inl q ↦
            let streams : u.streams ≡ t.streams ++ row ∷ [] = ground (arith, e, z, q) in
            rw streams (Has-append_right row t.streams (row ∷ []) (inl refl))
      ]
    ]

-- The stream stays, whatever Janus answers.
run_allowed_streams :
    (env : Env) (c : Connector) (s : Signaling) (stream_id agent_id rtc_id : ℕ) (label : String)
    (sdp : ℕ) (t u v : Tables) (room : Room.Object) (h : HandleId) (b : JanusBackend.Object)
    (y : Unit {0})
    → open_handle env c read_intent stream_id agent_id rtc_id room t ≡ (u, ok (h, b))
    → is_sdp_recvonly s sdp ≡ ok false
    → start_rtc_stream env s h agent_id (some label) room u ≡ (v, ok y)
    → (run_allowed env c s read_intent stream_id agent_id rtc_id (some label) sdp room t).0 ≡ v
unfolding run_allowed signal create_recording
run_allowed_streams env c s stream_id agent_id rtc_id label sdp t u v room h b y o i w =
    elim (Result-cases (
      await_stream c s b s.create_stream (
        stream_request h agent_id sdp (RtcWriterConfig.read_config h.rtc_id v.writer_configs)
          (RtcReaderConfig.read_config h.rtc_id v.reader_configs)))) [
            | inr (e, q) ↦ rw (run_allowed, o, i, w, q) refl
            | inl (j, q) ↦ rw (run_allowed, o, i, w, q) refl
          ]

-- With the intent to read, an agent who is not the creator but may read the RTC gets his stream written
-- for it all the same, if the offer that comes along is one to send: the check of the owner looks at the
-- intent, and the branch at the offer.
pub run_read_sends :
    (env : Env) (c : Connector) (s : Signaling) (stream_id agent_id rtc_id : ℕ) (label : String)
    (sdp : ℕ) (t u v : Tables) (room : Room.Object) (r : Rtc.Object) (h : HandleId)
    (b : JanusBackend.Object) (x y : Unit {0})
    → find_room_by_rtc_id rtc_id opened (env.clock 0) t.rtcs t.rooms ≡ ok room
    → Rtc.find_query t.rtcs rtc_id ≡ some r
    → room.rtc_sharing_policy ≡ owned
    → agent_id ≢ r.created_by
    → authorize_connect env read_intent agent_id rtc_id room ≡ ok x
    → open_handle env c read_intent stream_id agent_id rtc_id room t ≡ (u, ok (h, b))
    → is_sdp_recvonly s sdp ≡ ok false
    → start_rtc_stream env s h agent_id (some label) room u ≡ (v, ok y)
    → Has
        (new_stream h agent_id label env.db_now)
        (run env c s read_intent stream_id agent_id rtc_id (some label) sdp t).0.streams
      × ((new_stream h agent_id label env.db_now).sent_by ≢ r.created_by)
unfolding run run_allowed signal check_room_policy create_recording
run_read_sends env c s stream_id agent_id rtc_id label sdp t u v room r h b x y f e p n a o i w =
    let allowed : check_room_policy read_intent agent_id rtc_id t.rtcs room ≡ ok tt =
      rw (check_room_policy, p) refl in
    let same =
      run_allowed_streams env c s stream_id agent_id rtc_id label sdp t u v room h b y o i w in
    (rw (run, f, allowed, a, same) (start_rtc_stream-Has env s h agent_id label room u v y w), n)
