-- ===== src/Endpoint/AgentReaderConfig/Own.antt =====
-- What an update of the reader configs of a room may touch.
use conferences.Base.{
  ℕ, ◌≡◌, ◌≢◌, ◌⊎◌, refl, sym, ap, ◌∙◌, inl, inr, List, [], ◌∷◌, Option, some, Bool, true, false,
  Has, leb, map, length, Result, ok, ok_or, ok_or-some, bind_ok, Result-cases, arith,
}
use conferences.Base.Table.{find}
use conferences.Base.Table.Laws.{find-upsert_other}
use conferences.AppError.{ErrorKind, invalid_payload}
use conferences.Groups.{contains}
use conferences.GroupReaderConfig.{agent_rtc}
use conferences.GroupReaderConfig.Owner.{agent_rtc-Has}
use conferences.Db.Room
use conferences.Db.Room.Writes.{found_id}
use conferences.Db.Rtc.{is_owned}
use conferences.Db.Rtc
use conferences.Db.Rtc.Listed.{Has-list_query}
use conferences.Db.RtcReaderConfig.{has_key, upsert_query}
use conferences.Db.RtcReaderConfig
use conferences.Endpoint.Handler.{Env, Janus, require, authorized, classroom, update_action}
use conferences.Endpoint.Helpers.{opened, find_room_by_id, check_room_presence}
use conferences.Endpoint.Helpers.Requirements.{find_room_given}
use conferences.Endpoint.AgentReaderConfig.{
  max_state_configs_len, find_owned_room, Tables, StateConfigItem, group_agents, update_item,
  update_items, owned_rtcs, transaction, prepare, update,
}

ok_room :
    (q room : Room.Object)
    → Path (Result ErrorKind Room.Object) (ok q) (ok room)
    → (id : ℕ) → q.id ≡ id
    → room.id ≡ id
ok_room q room h id e = ground (arith, h, e)

require-true : (b : Bool) (u : Unit {0}) → require b invalid_payload ≡ ok u → b ≡ true
require-true true u h = refl
require-true false u h = ground arith

-- A config of another key is not found changed.
upsert_query_other :
    (rtc_id agent_id id reader : ℕ) (v a : Option Bool) (rows : List RtcReaderConfig.Object)
    → (id ≢ rtc_id) ⊎ (reader ≢ agent_id)
    → find (has_key id reader) (upsert_query rtc_id agent_id v a rows)
      ≡ find (has_key id reader) rows
unfolding upsert_query has_key
upsert_query_other rtc_id agent_id id reader v a rows (inl n) =
    find-upsert_other (has_key id reader) (has_key rtc_id agent_id) _ _ rows (ground arith)
      (λ x t. (ground arith, ground arith))
upsert_query_other rtc_id agent_id id reader v a rows (inr n) =
    find-upsert_other (has_key id reader) (has_key rtc_id agent_id) _ _ rows (ground arith)
      (λ x t. (ground arith, ground arith))

clash :
    (a b : ℕ) (members : List ℕ)
    → a ≡ b
    → contains a members ≡ false
    → contains b members ≡ true
    → ⊥
clash a b members e f t = ground (arith, rw e at f, t)

step_rows :
    (rtc_id agent_id id reader : ℕ) (v a : Option Bool)
    (rows new_rows : List RtcReaderConfig.Object)
    → Path
        (Result ErrorKind (List RtcReaderConfig.Object))
        (ok (upsert_query rtc_id agent_id v a rows))
        (ok new_rows)
    → (id ≢ rtc_id) ⊎ (reader ≢ agent_id)
    → find (has_key id reader) new_rows ≡ find (has_key id reader) rows
step_rows rtc_id agent_id id reader v a rows new_rows h n =
    let same : upsert_query rtc_id agent_id v a rows ≡ new_rows = ground (arith, h) in
    rw (sym same) (upsert_query_other rtc_id agent_id id reader v a rows n)

module _ (agent_id id reader : ℕ) (members : List ℕ) (rtcs : List Rtc.Object)
    (apart : (reader ≢ agent_id)
      ⊎ ((r : Rtc.Object) → Has r rtcs → r.id ≡ id → contains r.created_by members ≡ false)) where
  update_item_other :
      (x : StateConfigItem) (rows new_rows : List RtcReaderConfig.Object)
      → update_item agent_id members rtcs x rows ≡ ok new_rows
      → find (has_key id reader) new_rows ≡ find (has_key id reader) rows
  unfolding update_item
  update_item_other x rows new_rows h =
      let (rtc_id, e, h1) =
        bind_ok (ok_or (agent_rtc rtcs x.agent_id) invalid_payload) _ new_rows h in
      let (u, m, h2) =
        bind_ok (require (contains x.agent_id members) invalid_payload) _ new_rows h1 in
      let other : (id ≢ rtc_id) ⊎ (reader ≢ agent_id) = elim apart [
        | inl n ↦ inr n
        | inr f ↦ inl λ q.
            let (r, there, same, by) =
              agent_rtc-Has rtcs x.agent_id rtc_id
                (ok_or-some (agent_rtc rtcs x.agent_id) invalid_payload rtc_id e) in
            let is_member = require-true (contains x.agent_id members) u m in
            clash r.created_by x.agent_id members by (f r there (same ∙ sym q)) is_member
      ] in
      step_rows rtc_id agent_id id reader x.receive_video x.receive_audio rows new_rows h2 other

  update_items_other :
      (xs : List StateConfigItem) (rows new_rows : List RtcReaderConfig.Object)
      → update_items agent_id members rtcs xs rows ≡ ok new_rows
      → find (has_key id reader) new_rows ≡ find (has_key id reader) rows
  unfolding update_items
  update_items_other [] rows new_rows h =
      let same : rows ≡ new_rows = ground (arith, h) in ap (find (has_key id reader)) (sym same)
  update_items_other (x ∷ xs) rows new_rows h =
      let (mid, e, h1) = bind_ok (update_item agent_id members rtcs x rows) _ new_rows h in
      update_items_other xs mid new_rows h1 ∙ update_item_other x rows mid e

narrow :
    (agent_id id reader : ℕ) (members : List ℕ) (all : List Rtc.Object) (room_id : ℕ)
    (configs : List StateConfigItem)
    → (reader ≢ agent_id)
      ⊎ ((r : Rtc.Object) → Has r all → r.id ≡ id → contains r.created_by members ≡ false)
    → (reader ≢ agent_id)
      ⊎ ((r : Rtc.Object)
          → Has r (owned_rtcs room_id configs all)
          → r.id ≡ id
          → contains r.created_by members ≡ false)
unfolding owned_rtcs
narrow agent_id id reader members all room_id configs (inl n) = inl n
narrow agent_id id reader members all room_id configs (inr f) = inr (λ r h e.
    f r ((Has-list_query room_id (some (map StateConfigItem.agent_id configs)) r all h).0) e)

transaction_other :
    (agent_id id reader : ℕ) (members : List ℕ) (room_id : ℕ) (configs : List StateConfigItem)
    (t : Tables) (rows : List RtcReaderConfig.Object)
    → group_agents room_id agent_id t.groups ≡ ok members
    → (reader ≢ agent_id)
      ⊎ ((r : Rtc.Object) → Has r t.rtcs → r.id ≡ id → contains r.created_by members ≡ false)
    → transaction agent_id room_id configs t.groups t.rtcs t.reader_configs ≡ ok rows
    → find (has_key id reader) rows ≡ find (has_key id reader) t.reader_configs
unfolding transaction
transaction_other agent_id id reader members room_id configs t rows g apart h =
    let far = narrow agent_id id reader members t.rtcs room_id configs apart in
    update_items_other agent_id id reader members (owned_rtcs room_id configs t.rtcs) far configs
      t.reader_configs rows (rw g at h)

-- The room of the update has the id of the request.
prepare_id :
    (env : Env) (agent_id room_id : ℕ) (configs : List StateConfigItem) (t : Tables)
    (room : Room.Object)
    → prepare env agent_id room_id configs t ≡ ok room
    → room.id ≡ room_id
unfolding prepare find_owned_room
prepare_id env agent_id room_id configs t room h =
    let (u1, e1, h1) =
      bind_ok (require (leb (length configs) max_state_configs_len) invalid_payload) _ room h in
    let (r, e2, h2) = bind_ok (find_owned_room env agent_id room_id t) _ room h1 in
    let (u3, e3, h3) =
      bind_ok (authorized env agent_id r.audience (classroom r.classroom_id) update_action) _ room
        h2 in
    let (q, e4, h4) = bind_ok (find_room_by_id room_id opened (env.clock 0) t.rooms) _ r e2 in
    let (u5, e5, h5) = bind_ok (check_room_presence q agent_id t.agents) _ r h4 in
    let (u6, e6, h6) = bind_ok (require (is_owned q.rtc_sharing_policy) invalid_payload) _ r h5 in
    let found = find_room_given (Room.find_query room_id t.rooms) opened (env.clock 0) q e4 in
    let same : Path (Result ErrorKind Room.Object) (ok q) (ok room) = h6 ∙ h3 in
    ok_room q room same room_id (found_id room_id t.rooms q found)

-- An update changes no config of another reader, and none of an RTC whose creator is in no group with the
-- agent: `members` are the agents of the groups that he is in.
pub update_other :
    (env : Env) (janus : Janus) (agent_id room_id id reader : ℕ) (configs : List StateConfigItem)
    (t : Tables) (members : List ℕ)
    → group_agents room_id agent_id t.groups ≡ ok members
    → (reader ≢ agent_id)
      ⊎ ((r : Rtc.Object) → Has r t.rtcs → r.id ≡ id → contains r.created_by members ≡ false)
    → find (has_key id reader) (update env janus agent_id room_id configs t).0.reader_configs
      ≡ find (has_key id reader) t.reader_configs
unfolding update
update_other env janus agent_id room_id id reader configs t members g apart =
    elim (Result-cases (prepare env agent_id room_id configs t)) [
      | inr (e, p) ↦ rw (update, p) refl
      | inl (room, p) ↦
          let same = prepare_id env agent_id room_id configs t room p in
          let groups : group_agents room.id agent_id t.groups ≡ ok members = rw same g in
          elim (Result-cases
            (transaction agent_id room.id configs t.groups t.rtcs t.reader_configs)) [
              | inr (e, w) ↦ rw (update, p, w) refl
              | inl (rows, w) ↦
                  rw (update, p, w)
                    (transaction_other agent_id id reader members room.id configs t rows groups
                      apart w)
            ]
    ]
