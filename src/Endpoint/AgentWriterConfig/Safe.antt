-- ===== src/Endpoint/AgentWriterConfig/Safe.antt =====
-- What an update of the writer configs of a room may touch.
use Prim.Native.String.{String}
use conferences.Base.{
  ℕ, suc, ◌≡◌, ◌≢◌, refl, sym, ap, subst, ◌∙◌, inl, inr, List, [], ◌∷◌, none, some, true, ==→eq,
  Has, leb, length, ok, err, Result-cases, Option-cases, Bool-cases, bind_ok, arith,
}
use conferences.AppError.{ErrorKind, invalid_payload}
use conferences.GroupReaderConfig.{agent_rtc}
use conferences.GroupReaderConfig.Owner.{agent_rtc-Has, agent_rtc-none}
use conferences.Db.Room
use conferences.Db.Room.Writes.{found_id}
use conferences.Db.Rtc.{is_owned}
use conferences.Db.Rtc
use conferences.Db.Rtc.Listed.{Has-list_query}
use conferences.Db.RtcWriterConfig.{read_config, upsert_query}
use conferences.Db.RtcWriterConfig.Written.{upsert_query_other}
use conferences.Endpoint.Handler.{
  AuthzErrorKind, AuthzObject, classroom, Action, update_action, Env, authorized, Janus, require,
}
use conferences.Endpoint.Helpers.{opened, find_room_by_id, check_room_presence}
use conferences.Endpoint.Helpers.Requirements.{find_room_given}
use conferences.Endpoint.AgentWriterConfig.{
  Tables, StateConfigItem, item_query, update_item, update_items, owned_rtcs, max_state_configs_len,
  is_only_owned_config, find_owned_room, authorize_update, prepare, update,
}

-- An item that is written writes the config of the RTC of its agent.
update_item_ok :
    (env : Env) (agent_id : ℕ) (rtcs : List Rtc.Object) (k : ℕ) (x : StateConfigItem) (t u : Tables)
    → update_item env agent_id rtcs k x t ≡ ok u
    → (id : ℕ) × (agent_rtc rtcs x.agent_id ≡ some id)
      × (upsert_query (item_query agent_id id x) env.db_now t.rtcs t.writer_configs
          ≡ ok u.writer_configs)
unfolding update_item
update_item_ok env agent_id rtcs k x t u h = elim (Option-cases (agent_rtc rtcs x.agent_id)) [
  | inl e ↦ ground (arith, h, e)
  | inr (id, e) ↦
      elim (Result-cases
        (upsert_query (item_query agent_id id x) env.db_now t.rtcs t.writer_configs)) [
          | inr (d, w) ↦ ground (arith, h, e, w)
          | inl (rows, w) ↦
              let same : rows ≡ u.writer_configs = ground (arith, h, e, w) in
              (id, e, w ∙ ap ok same)
        ]
]

-- The configs of the RTCs of other agents stay.
update_item_other :
    (env : Env) (agent_id : ℕ) (rtcs : List Rtc.Object) (k rtc_id : ℕ) (x : StateConfigItem)
    (t u : Tables)
    → ((id : ℕ) → agent_rtc rtcs x.agent_id ≡ some id → rtc_id ≢ id)
    → update_item env agent_id rtcs k x t ≡ ok u
    → read_config rtc_id u.writer_configs ≡ read_config rtc_id t.writer_configs
unfolding item_query
update_item_other env agent_id rtcs k rtc_id x t u n h =
    let r = update_item_ok env agent_id rtcs k x t u h in
    upsert_query_other (item_query agent_id r.0 x) env.db_now rtc_id t.rtcs t.writer_configs
      u.writer_configs (n r.0 r.1) r.2

-- A request that names an agent without an RTC fails.
update_items_missing :
    (env : Env) (agent_id : ℕ) (rtcs : List Rtc.Object) (ids : ℕ → ℕ) (k : ℕ) (x : StateConfigItem)
    (xs : List StateConfigItem) (t : Tables)
    → Has x xs
    → agent_rtc rtcs x.agent_id ≡ none
    → (e : ErrorKind) × (update_items env agent_id rtcs ids k xs t ≡ err e)
unfolding update_items
update_items_missing env agent_id rtcs ids k x [] t h n = elim h [ ]
update_items_missing env agent_id rtcs ids k x (y ∷ ys) t h n =
    elim (Result-cases (update_item env agent_id rtcs (ids k) y t)) [
      | inr (e, w) ↦ (e, rw w refl)
      | inl (u, w) ↦ elim h [
        | inl same ↦
            let r = update_item_ok env agent_id rtcs (ids k) y t u w in ground (arith, r.1, n, same)
        | inr there ↦
            let r = update_items_missing env agent_id rtcs ids (suc k) x ys u there n in
            (r.0, rw w (r.1))
      ]
    ]

-- The room that a request is let through to has the id of the request.
find_owned_room_id :
    (env : Env) (agent_id room_id : ℕ) (t : Tables) (room : Room.Object)
    → find_owned_room env agent_id room_id t ≡ ok room
    → room.id ≡ room_id
unfolding find_owned_room
find_owned_room_id env agent_id room_id t room h =
    let a = bind_ok (find_room_by_id room_id opened (env.clock 0) t.rooms) _ room h in
    let b = bind_ok (require (is_owned a.0.rtc_sharing_policy) invalid_payload) _ room a.2 in
    let c = bind_ok (check_room_presence a.0 agent_id t.agents) _ room b.2 in
    let found = find_room_given (Room.find_query room_id t.rooms) opened (env.clock 0) a.0 a.1 in
    ground (arith, c.2, found_id room_id t.rooms a.0 found)

prepare_ok :
    (env : Env) (agent_id room_id : ℕ) (configs : List StateConfigItem) (t : Tables)
    (room : Room.Object)
    → prepare env agent_id room_id configs t ≡ ok room
    → (room.id ≡ room_id) × ((u : Unit {0}) × (authorize_update env agent_id configs room ≡ ok u))
unfolding prepare
prepare_ok env agent_id room_id configs t room h =
    let a =
      bind_ok (require (leb (length configs) max_state_configs_len) invalid_payload) _ room h in
    let b = bind_ok (find_owned_room env agent_id room_id t) _ room a.2 in
    let c = bind_ok (authorize_update env agent_id configs b.0) _ room b.2 in
    let same : b.0 ≡ room = ground (arith, c.2) in
    (rw (sym same) (find_owned_room_id env agent_id room_id t b.0 b.1), (c.0, rw (sym same) (c.1)))

-- An update that names an agent who has created no RTC in the room changes nothing: the configs that
-- stand before it in the request are rolled back.
pub update_rolls_back :
    (env : Env) (janus : Janus) (ids : ℕ → ℕ) (agent_id room_id : ℕ)
    (configs : List StateConfigItem) (t : Tables) (x : StateConfigItem)
    → Has x configs
    → ((r : Rtc.Object) → Has r t.rtcs → r.room_id ≡ room_id → r.created_by ≢ x.agent_id)
    → (e : ErrorKind) × (update env janus ids agent_id room_id configs t ≡ (t, err e))
unfolding update owned_rtcs
update_rolls_back env janus ids agent_id room_id configs t x h none_there =
    elim (Result-cases (prepare env agent_id room_id configs t)) [
      | inr (e, p) ↦ (e, rw (update, p) refl)
      | inl (room, p) ↦
          let id = (prepare_ok env agent_id room_id configs t room p).0 in
          let rtcs = owned_rtcs room.id configs t.rtcs in
          let missing : agent_rtc rtcs x.agent_id ≡ none =
            agent_rtc-none rtcs x.agent_id
              (λ r k. let l = Has-list_query room.id _ r t.rtcs k in none_there r l.0 (l.1 ∙ id)) in
          let r = update_items_missing env agent_id rtcs ids 0 x configs t h missing in
          (r.0, rw (update, p, r.1) refl)
    ]

-- The request that needs no authorization.
only_own :
    (agent_id : ℕ) (configs : List StateConfigItem)
    → is_only_owned_config agent_id configs ≡ true
    → (x : StateConfigItem) × (configs ≡ x ∷ []) × (x.agent_id ≡ agent_id)
unfolding is_only_owned_config
only_own agent_id [] h = ground arith
only_own agent_id (x ∷ []) h = (x, refl, ==→eq x.agent_id agent_id h)
only_own agent_id (x ∷ y ∷ ys) h = ground arith

update_items_one :
    (env : Env) (agent_id : ℕ) (rtcs : List Rtc.Object) (ids : ℕ → ℕ) (x : StateConfigItem)
    (t u : Tables)
    → update_items env agent_id rtcs ids 0 (x ∷ []) t ≡ ok u
    → update_item env agent_id rtcs (ids 0) x t ≡ ok u
unfolding update_items
update_items_one env agent_id rtcs ids x t u h =
    let a = bind_ok (update_item env agent_id rtcs (ids 0) x t) _ u h in a.1 ∙ a.2

module _ (env : Env) (agent_id : ℕ)
    (refused : (audience : String) (object : AuthzObject) (action : Action)
      → (e : AuthzErrorKind) × (env.authorize agent_id audience object action ≡ err e)) where
  refused_only_own :
      (configs : List StateConfigItem) (room : Room.Object) (u : Unit {0})
      → authorize_update env agent_id configs room ≡ ok u
      → is_only_owned_config agent_id configs ≡ true
  unfolding authorize_update authorized
  refused_only_own configs room u h = elim (Bool-cases (is_only_owned_config agent_id configs)) [
    | inl t ↦ t
    | inr f ↦
        let r = refused room.audience (classroom room.classroom_id) update_action in
        ground (arith, h, f, r.1)
  ]

  -- What a refused agent's transaction leaves alone.
  refused_items_other :
      (ids : ℕ → ℕ) (room : Room.Object) (configs : List StateConfigItem) (t u : Tables)
      (rtc_id : ℕ)
      → is_only_owned_config agent_id configs ≡ true
      → ((r : Rtc.Object) → Has r t.rtcs → r.id ≡ rtc_id → r.created_by ≢ agent_id)
      → update_items env agent_id (owned_rtcs room.id configs t.rtcs) ids 0 configs t ≡ ok u
      → read_config rtc_id u.writer_configs ≡ read_config rtc_id t.writer_configs
  unfolding owned_rtcs
  refused_items_other ids room configs t u rtc_id o other h =
      let s = only_own agent_id configs o in
      let rtcs = owned_rtcs room.id configs t.rtcs in
      let one =
        update_items_one env agent_id rtcs ids s.0 t u
          (subst (λ c. update_items env agent_id rtcs ids 0 c t ≡ ok u) s.1 h) in
      update_item_other env agent_id rtcs (ids 0) rtc_id s.0 t u
        (λ id e d.
          let f = agent_rtc-Has rtcs s.0.agent_id id e in
          other f.0 ((Has-list_query room.id _ f.0 t.rtcs f.1).0) (f.2 ∙ sym d) (f.3 ∙ s.2))
        one

  -- An agent whom the service of authorization refuses everything changes no config but that of an RTC
  -- of his own.
  pub update_refused :
      (janus : Janus) (ids : ℕ → ℕ) (room_id : ℕ) (configs : List StateConfigItem) (t : Tables)
      (rtc_id : ℕ)
      → ((r : Rtc.Object) → Has r t.rtcs → r.id ≡ rtc_id → r.created_by ≢ agent_id)
      → read_config rtc_id (update env janus ids agent_id room_id configs t).0.writer_configs
        ≡ read_config rtc_id t.writer_configs
  unfolding update
  update_refused janus ids room_id configs t rtc_id other =
      elim (Result-cases (prepare env agent_id room_id configs t)) [
        | inr (e, p) ↦ rw (update, p) refl
        | inl (room, p) ↦
            let a = (prepare_ok env agent_id room_id configs t room p).1 in
            let own = refused_only_own configs room a.0 a.1 in
            elim (Result-cases
              (update_items env agent_id (owned_rtcs room.id configs t.rtcs) ids 0 configs t)) [
                | inr (e, w) ↦ rw (update, p, w) refl
                | inl (u, w) ↦
                    rw (update, p, w) (refused_items_other ids room configs t u rtc_id own other w)
              ]
      ]
