-- ===== src/Endpoint/RtcSignal/Owner.antt =====
-- Who may send to an RTC of a room with the owned policy.
use Prim.Native.String.{String}
use conferences.Base.{
  ℕ, ◌≡◌, ◌≢◌, refl, inl, inr, Option, some, Bool, true, false, ◌==◌, ok, err, ok_or, ok_or-some,
  bind_ok, Result-cases, arith,
}
use conferences.AppError.{access_denied, backend_not_found, invalid_handle_id, rtc_not_found}
use conferences.Db.JanusBackend
use conferences.Db.Room
use conferences.Db.Rtc.{owned, is_owned}
use conferences.Db.Rtc
use conferences.Endpoint.Handler.{Env, require}
use conferences.Endpoint.Helpers.{opened, find_room_by_id, check_room_presence}
use conferences.Endpoint.Helpers.Requirements.{find_room_given}
use conferences.Endpoint.Rtc.{Tables}
use conferences.Endpoint.RtcConnect.{HandleId}
use conferences.Endpoint.RtcSignal.{
  Signaling, Jsep, offer, answer, ice_candidate, validate, check_backend_id, check_connection,
  is_sdp_recvonly, check_owner, signal_offer, create,
}

-- The room and the RTC that are validated are those of the handle id.
validate_ok :
    (env : Env) (h : HandleId) (agent_id : ℕ) (t : Tables)
    (v : Room.Object × Rtc.Object × JanusBackend.Object)
    → validate env h agent_id t ≡ ok v
    → (Rtc.find_query t.rtcs h.rtc_id ≡ some v.1) × (Room.find_query v.1.room_id t.rooms ≡ some v.0)
unfolding validate
validate_ok env h agent_id t v e =
    let a = bind_ok (ok_or (Rtc.find_query t.rtcs h.rtc_id) rtc_not_found) _ v e in
    let b = bind_ok (find_room_by_id a.0.room_id opened (env.clock 0) t.rooms) _ v a.2 in
    let c = bind_ok (check_room_presence b.0 agent_id t.agents.agents) _ v b.2 in
    let d = bind_ok (check_backend_id h b.0) _ v c.2 in
    let f =
      bind_ok (ok_or (JanusBackend.find_query t.backends h.backend_id) backend_not_found) _ v d.2 in
    let g = bind_ok (require (h.janus_session_id == f.0.session_id) invalid_handle_id) _ v f.2 in
    let k = bind_ok (check_connection h agent_id a.0.id t.agents) _ v g.2 in
    let found =
      find_room_given (Room.find_query a.0.room_id t.rooms) opened (env.clock 0) b.0 b.1 in
    let same : v ≡ (b.0, a.0, f.0) = ground (arith, k.2) in
    (rw same (ok_or-some (Rtc.find_query t.rtcs h.rtc_id) rtc_not_found a.0 a.1), rw same found)

refused :
    (agent_id : ℕ) (room : Room.Object) (r : Rtc.Object)
    → room.rtc_sharing_policy ≡ owned
    → agent_id ≢ r.created_by
    → check_owner agent_id room r ≡ err access_denied
unfolding check_owner
refused agent_id room r p n = rw p (ground arith)

signal_other :
    (env : Env) (s : Signaling) (h : HandleId) (agent_id : ℕ) (label : Option String) (sdp : ℕ)
    (room : Room.Object) (r : Rtc.Object) (backend : JanusBackend.Object) (recv : Bool) (t : Tables)
    → room.rtc_sharing_policy ≡ owned
    → agent_id ≢ r.created_by
    → (signal_offer env s h agent_id label sdp (room, r, backend) recv t).0 ≡ t
unfolding signal_offer
signal_other env s h agent_id label sdp room r backend true t p n = refl
signal_other env s h agent_id label sdp room r backend false t p n =
    rw (refused agent_id room r p n) refl

create_valid :
    (env : Env) (s : Signaling) (h : HandleId) (agent_id : ℕ) (label : Option String) (jsep : Jsep)
    (t : Tables) (v : Room.Object × Rtc.Object × JanusBackend.Object)
    → validate env h agent_id t ≡ ok v
    → v.0.rtc_sharing_policy ≡ owned
    → agent_id ≢ v.1.created_by
    → (create env s h agent_id label jsep t).0 ≡ t
unfolding create
create_valid env s h agent_id label (answer sdp) t v w p n = rw (create, w) refl
create_valid env s h agent_id label (ice_candidate c) t v w p n = rw (create, w) refl
create_valid env s h agent_id label (offer sdp) t v w p n =
    elim (Result-cases (is_sdp_recvonly s sdp)) [
      | inr (e, d) ↦ rw (create, w, d) refl
      | inl (recv, d) ↦
          rw (create, w, d) (signal_other env s h agent_id label sdp v.0 v.1 v.2 recv t p n)
    ]

-- Signaling to an RTC of another agent in a room with the owned policy changes nothing, whatever the
-- offer, the label and the handle id: no stream is started.
pub create_other :
    (env : Env) (s : Signaling) (h : HandleId) (agent_id : ℕ) (label : Option String) (jsep : Jsep)
    (t : Tables) (r : Rtc.Object) (room : Room.Object)
    → Rtc.find_query t.rtcs h.rtc_id ≡ some r
    → Room.find_query r.room_id t.rooms ≡ some room
    → room.rtc_sharing_policy ≡ owned
    → agent_id ≢ r.created_by
    → (create env s h agent_id label jsep t).0 ≡ t
unfolding create
create_other env s h agent_id label jsep t r room e1 e2 p n =
    elim (Result-cases (validate env h agent_id t)) [
      | inr (e, w) ↦ rw (create, w) refl
      | inl (v, w) ↦
          let k = validate_ok env h agent_id t v w in
          let same : v.1 ≡ r = ground (arith, k.0, e1) in
          let there : v.0 ≡ room = ground (arith, k.1, e2, same) in
          let denied : v.0.rtc_sharing_policy ≡ owned = rw there p in
          let other : agent_id ≢ v.1.created_by = rw same n in
          create_valid env s h agent_id label jsep t v w denied other
    ]
