-- ===== src/Stage/Chain.antt =====
-- A change of groups passes through at most three stages, in their order.
use conferences.Base.{ℕ, ◌+◌, ◌<◌, ◌≡◌, ◌≢◌, sym, ◌∙◌, List, none, some, ok, arith}
use conferences.Outbox.{EventId, Object}
use conferences.Outbox.Pipeline.{Env, Transactional, run_single_stage}
use conferences.Outbox.Pipeline.Termination.{run_single_stage_ends}
use conferences.Stage.{
  AppStage, Services, handle, video_group_update_janus_config, video_group_send_nats_notification,
  video_group_send_mqtt_notification,
}

-- How many stages follow.
pub remaining : AppStage → ℕ
remaining (video_group_update_janus_config r c e b cs) = 2
remaining (video_group_send_nats_notification r c e) = 1
remaining (video_group_send_mqtt_notification r) = 0

-- A stage that passes names the next one, and the last stage none.
pub handle-remaining :
    (s : Services) (stage next : AppStage)
    → handle s stage ≡ ok (some next)
    → remaining next + 1 ≡ remaining stage
unfolding handle remaining
handle-remaining s (video_group_update_janus_config r c e b cs) next h = ground arith
handle-remaining s (video_group_send_nats_notification r c e) next h = ground arith
handle-remaining s (video_group_send_mqtt_notification r) next h = ground arith

remaining-lt : (stage : AppStage) → remaining stage < 3
unfolding remaining
remaining-lt (video_group_update_janus_config r c e b cs) = omega arith
remaining-lt (video_group_send_nats_notification r c e) = omega arith
remaining-lt (video_group_send_mqtt_notification r) = omega arith

-- Whatever the services answer and whatever stands in the outbox, four rounds of the loop of
-- `run_single_stage` are enough for the stages of video groups, if the JSON of a stage is read back
-- as that stage.
pub video_group_pipeline_ends :
    {J : Type 0} (services : ℕ → Services) (env : Env AppStage J)
    → ((k : ℕ) (stage : AppStage) (e : EventId) → env.handle k stage e ≡ handle (services k) stage)
    → ((stage : AppStage) (json : J) → env.encode stage ≡ some json → env.decode json ≡ some stage)
    → (db : Transactional (List (Object J))) (k : ℕ) (e : EventId) (s : List (Object J))
    → run_single_stage env db 4 k e s ≢ none
video_group_pipeline_ends services env handles reads_back db k e s =
    run_single_stage_ends env remaining
      (λ j stage next f h.
        omega (arith, handle-remaining (services j) stage next (sym (handles j stage f) ∙ h)))
      reads_back 3 k e s db (λ o stage _ _. remaining-lt stage)
