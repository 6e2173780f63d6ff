-- ===== src/Endpoint/RtcSignal/Trickle.antt =====
-- Two ways to send a candidate: `rtc_signal.create` with a candidate, and `Trickle::run`, which looks at
-- the same things in another order.
use Prim.Native.String.{String}
use conferences.Base.{
  ℕ, ◌≡◌, ◌↔◌, refl, sym, ap, Option, none, ◌==◌, Result, ok, ok_or, bind_ok, arith,
}
use conferences.AppError.{ErrorKind, backend_not_found, invalid_handle_id, rtc_not_found}
use conferences.Db.JanusBackend
use conferences.Db.Room
use conferences.Db.Rtc
use conferences.Endpoint.Handler.{Env, require}
use conferences.Endpoint.Helpers.{opened, find_room_by_id, check_room_presence}
use conferences.Endpoint.Rtc.{Tables}
use conferences.Endpoint.RtcConnect.{HandleId, then_pure}
use conferences.Endpoint.RtcSignal.{
  Signaling, jsep_answer, ice_candidate, validate, check_backend_id, check_connection,
  trickle_candidate, create, trickle,
}

-- What both look at, in no order.
record Passes (env : Env) (s : Signaling) (h : HandleId) (agent_id candidate : ℕ) (t : Tables)
    : Type 0 where
  room : Room.Object
  rtc : Rtc.Object
  backend : JanusBackend.Object
  has_rtc : ok_or (Rtc.find_query t.rtcs h.rtc_id) rtc_not_found ≡ ok rtc
  has_room : find_room_by_id rtc.room_id opened (env.clock 0) t.rooms ≡ ok room
  presence : check_room_presence room agent_id t.agents.agents ≡ ok tt
  backend_id : check_backend_id h room ≡ ok tt
  has_backend :
      ok_or (JanusBackend.find_query t.backends h.backend_id) backend_not_found ≡ ok backend
  session : require (h.janus_session_id == backend.session_id) invalid_handle_id ≡ ok tt
  connection : check_connection h agent_id rtc.id t.agents ≡ ok tt
  sent : trickle_candidate env s h agent_id candidate room backend ≡ ok tt

module _ (env : Env) (s : Signaling) (h : HandleId) (agent_id candidate : ℕ) (t : Tables) where
  from_trickle :
      (u : Unit {0})
      → trickle env s h agent_id candidate t ≡ ok u
      → Passes env s h agent_id candidate t
  unfolding trickle
  from_trickle u e =
      let (b, e1, h1) =
        bind_ok (ok_or (JanusBackend.find_query t.backends h.backend_id) backend_not_found) _ u e in
      let (r, e2, h2) = bind_ok (ok_or (Rtc.find_query t.rtcs h.rtc_id) rtc_not_found) _ u h1 in
      let (u3, e3, h3) = bind_ok (check_connection h agent_id r.id t.agents) _ u h2 in
      let (q, e4, h4) = bind_ok (find_room_by_id r.room_id opened (env.clock 0) t.rooms) _ u h3 in
      let (u5, e5, h5) = bind_ok (check_room_presence q agent_id t.agents.agents) _ u h4 in
      let (u6, e6, h6) = bind_ok (check_backend_id h q) _ u h5 in
      let (u7, e7, h7) =
        bind_ok (require (h.janus_session_id == b.session_id) invalid_handle_id) _ u h6 in
      record {
        room = q;
        rtc = r;
        backend = b;
        has_rtc = e2;
        has_room = e4;
        presence = e5;
        backend_id = e6;
        has_backend = e1;
        session = e7;
        connection = e3;
        sent = h7;
      }

  to_trickle : Passes env s h agent_id candidate t → trickle env s h agent_id candidate t ≡ ok tt
  unfolding trickle
  to_trickle p =
      rw
        (
          trickle, p.has_backend, p.has_rtc, p.connection, p.has_room, p.presence, p.backend_id,
          p.session,
        )
        (p.sent)

  to_create :
      Passes env s h agent_id candidate t
      → (label : Option String)
      → create env s h agent_id label (ice_candidate candidate) t ≡ (t, ok (jsep_answer none))
  unfolding create validate
  to_create p label =
      rw
        (
          create, validate, p.has_rtc, p.has_room, p.presence, p.backend_id, p.has_backend,
          p.session, p.connection, p.sent,
        )
        refl

  sends :
      (v : Room.Object × Rtc.Object × JanusBackend.Object) (q : Room.Object) (r : Rtc.Object)
      (b : JanusBackend.Object)
      → Path
          (Result ErrorKind (Room.Object × Rtc.Object × JanusBackend.Object))
          (ok (q, r, b))
          (ok v)
      → (u : Unit {0}) → trickle_candidate env s h agent_id candidate v.0 v.2 ≡ ok u
      → trickle_candidate env s h agent_id candidate q b ≡ ok tt
  sends v q r b e u f =
      let same : v ≡ (q, r, b) = ground (arith, e) in
      rw (ap (λ y. y.0) (sym same), ap (λ y. y.2) (sym same)) f

  from_create :
      (label : Option String)
      → create env s h agent_id label (ice_candidate candidate) t ≡ (t, ok (jsep_answer none))
      → Passes env s h agent_id candidate t
  unfolding create validate
  from_create label e =
      let (v, e0, h0) = then_pure t (validate env h agent_id t) _ t (jsep_answer none) e in
      let (r, e1, h1) = bind_ok (ok_or (Rtc.find_query t.rtcs h.rtc_id) rtc_not_found) _ v e0 in
      let (q, e2, h2) = bind_ok (find_room_by_id r.room_id opened (env.clock 0) t.rooms) _ v h1 in
      let (u3, e3, h3) = bind_ok (check_room_presence q agent_id t.agents.agents) _ v h2 in
      let (u4, e4, h4) = bind_ok (check_backend_id h q) _ v h3 in
      let (b, e5, h5) =
        bind_ok (ok_or (JanusBackend.find_query t.backends h.backend_id) backend_not_found) _ v
          h4 in
      let (u6, e6, h6) =
        bind_ok (require (h.janus_session_id == b.session_id) invalid_handle_id) _ v h5 in
      let (u7, e7, h7) = bind_ok (check_connection h agent_id r.id t.agents) _ v h6 in
      let (u8, e8, h8) =
        bind_ok (trickle_candidate env s h agent_id candidate v.0 v.2) _ (jsep_answer none)
          (ap (λ y. y.1) h0) in
      record {
        room = q;
        rtc = r;
        backend = b;
        has_rtc = e1;
        has_room = e2;
        presence = e3;
        backend_id = e4;
        has_backend = e5;
        session = e6;
        connection = e7;
        sent = sends v q r b h7 u8 e8;
      }

  -- A candidate that one of them sends the other sends too: they check the same.
  pub trickle-create :
      (label : Option String)
      → (trickle env s h agent_id candidate t ≡ ok tt)
        ↔ (create env s h agent_id label (ice_candidate candidate) t ≡ (t, ok (jsep_answer none)))
  trickle-create label =
      (λ e. to_create (from_trickle tt e) label, λ e. to_trickle (from_create label e))
