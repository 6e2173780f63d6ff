-- ===== src/Examples/OutboxRuns.antt =====
-- The outbox pipeline on one or two rows of stages that are numbers.
use Prim.Native.String.{String}
use conferences.Base.{
  ℕ, zero, suc, ◌+◌, ◌<◌, ◌≡◌, ◌≢◌, refl, sym, ap, [], ◌∷◌, Option, none, some, true, false, Result,
  ok, err, All, arith,
}
use conferences.Base.Table.{find, delete_where}
use conferences.Outbox.{
  inserted, list_query, delete_query, update_query, Object, EventId, event_id, has_event,
  find_query,
}
use conferences.Outbox.Backoff.{next_delivery_deadline_at}
use conferences.Outbox.Handler.{drain}
use conferences.Outbox.Handler.Drained.{drain_ends}
use conferences.Outbox.Pipeline.{
  multiple_body, load_multiple_records, decode_all, handle_records, outcome_arm, last_stage_arm,
  no_stage, failed_arm, Env, Transactional, Failure, Errors, error, stage_error, handle_record,
  run_single_stage, run_multiple_stages,
}
use conferences.Outbox.Pipeline.Record.{handle_record_advances, next_row}
use conferences.Outbox.Pipeline.Rollback.{settled, run_multiple_stages-fails}
use conferences.Outbox.Pipeline.Untried.{run_multiple_stages-IsUntried, IsUntried}
use conferences.Stage.{AppStage, Services, video_group_send_nats_notification, created, handle}
use conferences.Stage.Chain.{video_group_pipeline_ends}

-- Transactions that settle the state at once.
pub commits_at :
    {S : Type 0} (E A : Type 0) (f : S → S × Result E A) (s t : S) (a : A)
    → f s ≡ (t, ok a)
    → settled s (f s) ≡ (t, ok a)
commits_at E A f s t a h = ap (settled s) h

pub rolls_back_at :
    {S : Type 0} (E A : Type 0) (f : S → S × Result E A) (s t : S) (e : E)
    → f s ≡ (t, err e)
    → settled s (f s) ≡ (s, err e)
rolls_back_at E A f s t e h = ap (settled s) h

abbrev pub database : {S : Type 0} → Transactional S
database = record {
  transaction = λ E A f s. settled s (f s);
  commits = commits_at;
  rolls_back = rolls_back_at;
}

-- Stage 0 is the last, stage 1 goes on to stage 0, every other stage fails.
abbrev count_down : ℕ → Result String (Option ℕ)
count_down zero = ok none
count_down (suc zero) = ok (some 0)
count_down (suc (suc n)) = err "failed"

abbrev numbers : Env ℕ ℕ
numbers = record {
  decode = some;
  encode = some;
  handle = λ k stage e. count_down stage;
  locked = λ o. false;
  acquired = λ k. true;
  next_id = λ k. k + 10;
  now = 100;
  try_wake_interval = 5;
  max_delivery_interval = 60;
}

abbrev stage_row : ℕ → ℕ → Object ℕ
stage_row id stage = record {
  id = id;
  entity_type = "video_group";
  stage = stage;
  delivery_deadline_at = 90;
  error_kind = none;
  retry_count = 0;
  created_at = 80;
  operation = "update";
}

abbrev event : ℕ → EventId
event n = record { entity_type = "video_group"; operation = "update"; sequence_id = n }

event_differs : {m n : ℕ} → m ≢ n → event m ≢ event n
event_differs h e = h (ap (λ x. x.sequence_id) e)

handle_record_advances_example :
    let (s, r) = handle_record numbers 0 (stage_row 1 1) 1 (stage_row 1 1 ∷ stage_row 2 7 ∷ []) in
    (r ≡ ok (some (event 10)))
    × (find (has_event (event 10)) s ≡ some (next_row numbers 0 (stage_row 1 1) 0))
    × (find (has_event (event 1)) s ≡ none)
    × (find (has_event (event 2)) s
        ≡ find (has_event (event 2)) (stage_row 1 1 ∷ stage_row 2 7 ∷ []))
unfolding event_id has_event find inserted
handle_record_advances_example =
    handle_record_advances numbers 0 (stage_row 1 1) 1 (stage_row 1 1 ∷ stage_row 2 7 ∷ []) 0 0
      (event 2) refl refl refl refl (event_differs (omega arith)) (event_differs (omega arith))
      (event_differs (omega arith))

-- The first record passes, the second one fails.
run_multiple_stages-fails_example :
    (x : Failure) × (xs : Errors) × (run_multiple_stages numbers database 0 20
        (stage_row 1 0 ∷ stage_row 2 7 ∷ [])
      ≡ (stage_row 1 0 ∷ stage_row 2 7 ∷ [], err (x ∷ xs)))
unfolding decode_all list_query
run_multiple_stages-fails_example =
    run_multiple_stages-fails numbers database 0 20 ((stage_row 1 0, 0) ∷ []) [] (stage_row 2 7) 7
      "failed" (stage_row 1 0 ∷ stage_row 2 7 ∷ []) refl refl refl

-- The errors of the batch.
run_multiple_stages_errors :
    (run_multiple_stages numbers database 0 20 (stage_row 1 0 ∷ stage_row 2 7 ∷ [])).1
    ≡ err (error (stage_error "failed") ∷ [])
unfolding run_multiple_stages multiple_body load_multiple_records decode_all list_query
    handle_records handle_record outcome_arm last_stage_arm no_stage failed_arm delete_query
    update_query next_delivery_deadline_at find delete_where has_event event_id
run_multiple_stages_errors = refl

run_multiple_stages-IsUntried_example :
    All IsUntried (run_multiple_stages numbers database 0 20 (stage_row 1 0 ∷ stage_row 2 7 ∷ [])).0
run_multiple_stages-IsUntried_example =
    run_multiple_stages-IsUntried numbers database 0 20 (stage_row 1 0 ∷ stage_row 2 7 ∷ [])
      ((refl, refl), ((refl, refl), tt))

lowers_at : (k stage next : ℕ) (e : EventId) → count_down stage ≡ ok (some next) → next < stage
lowers_at k zero next e h = ground (arith, h)
lowers_at k (suc zero) next e h = ground (arith, h)
lowers_at k (suc (suc n)) next e h = ground (arith, h)

reads_back_at : (stage json : ℕ) → some stage ≡ some json → some json ≡ some stage
reads_back_at stage json h = sym h

ranked_at :
    (o : Object ℕ) (stage : ℕ)
    → find_query numbers.locked (event 1) (stage_row 1 1 ∷ []) ≡ ok o
    → some o.stage ≡ some stage
    → stage < 2
unfolding find_query find has_event
ranked_at o stage h e = ground (arith, h, e)

abbrev services : Services
services = record {
  conn = true;
  query = true;
  backends = [];
  get_or_insert = λ b. true;
  reader_update = λ s h cs. true;
  to_vec = λ e. some 0;
  nats_client = true;
  nats_publish = λ c p. true;
  mqtt_publish = λ r. true;
}

abbrev stages : Env AppStage AppStage
stages = record {
  decode = some;
  encode = some;
  handle = λ k stage e. handle services stage;
  locked = λ o. false;
  acquired = λ k. true;
  next_id = λ k. k + 10;
  now = 100;
  try_wake_interval = 5;
  max_delivery_interval = 60;
}

same_handler :
    (k : ℕ) (stage : AppStage) (e : EventId) → handle services stage ≡ handle services stage
same_handler k stage e = refl

same_stage : (stage json : AppStage) → some stage ≡ some json → some json ≡ some stage
same_stage stage json h = sym h

abbrev group_row : Object AppStage
group_row = record {
  id = 1;
  entity_type = "video_group";
  stage = video_group_send_nats_notification 3 4 (created 70);
  delivery_deadline_at = 90;
  error_kind = none;
  retry_count = 0;
  created_at = 80;
  operation = "update";
}

video_group_pipeline_ends_example :
    run_single_stage stages database 4 0 (event 1) (group_row ∷ []) ≢ none
video_group_pipeline_ends_example =
    video_group_pipeline_ends (λ k. services) stages same_handler same_stage database 0 (event 1)
      (group_row ∷ [])

drain_ends_example : drain numbers database 5 0 1 (stage_row 1 1 ∷ stage_row 2 0 ∷ []) ≢ none
unfolding has_event event_id
drain_ends_example =
    drain_ends numbers (λ stage. stage) lowers_at reads_back_at 5 0 1
      (stage_row 1 1 ∷ stage_row 2 0 ∷ []) database ((refl, tt), (tt, tt)) (omega arith)
