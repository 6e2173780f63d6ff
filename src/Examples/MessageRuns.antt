-- ===== src/Examples/MessageRuns.antt =====
-- Requests and their answers, messages between agents, and texts that are read back.
use Prim.Native.String.{String}
use conferences.Base.{
  ℕ, zero, suc, ◌+◌, ◌≡◌, refl, sym, ap, inl, inr, List, [], ◌∷◌, Option, none, some, ◌==◌, ◌&&◌,
  length, ok, err, if◌then◌else◌, same_text, same_text→eq, ==→eq, Bool-cases, arith,
}
use conferences.Base.Table.{find}
use conferences.AppError.{no_content, room_not_found}
use conferences.AppError
use conferences.Db.Room
use conferences.Endpoint.Helpers.{find_room_by_id, check_room_presence, opened}
use conferences.Endpoint.Message.{
  CorrelationData, subscription_delete, message_unicast, Codec, UnicastRequest, Tables, unicast,
  unicast_response_to, route_response,
}
use conferences.Endpoint.Message.Returned.{route_response-unicast}
use conferences.Endpoint.RtcConnect.{HandleId}
use conferences.HandleId.{Codecs, to_string, from_str}
use conferences.HandleId
use conferences.HandleId.Text.{IsUndotted, from_str-to_string}
use conferences.Messages.{
  RequestProperties, unicast_request, unicast_response, RequestHandler, handle_envelope,
  handle_request, new,
}
use conferences.Messages.Answered.{answers, answers-handle_request}
use conferences.Serde.{
  ℤ, pos, negsuc, DateTime, Time, included, excluded, serialize, serialize_option,
  deserialize_option,
}
use conferences.Serde
use conferences.Serde.Ranges.{second, deserialize_option-serialize_option}
use conferences.Examples.MediaRuns.{room, agents}

abbrev request : RequestProperties
request = record { agent_id = 7; method = "message.unicast"; correlation_data = 40 }

-- A handler that succeeds without content for the payload 0, and fails for others.
abbrev handler : RequestHandler ℕ ℕ
unfolding new
handler = record {
  error_title = "Failed";
  handle = λ s p params. (s + 1, if p == 0 then ok (new no_content none) else err room_not_found);
}

answers-handle_request_example :
    (answers (handle_request {S = ℕ} none request 5).1 ≡ 1)
    × (answers (handle_request (some (handle_envelope handler (some 1) request)) request 5).1 ≡ 1)
unfolding handler
answers-handle_request_example =
    answers-handle_request handler (some 1) request 5
      (λ p. elim (Bool-cases (p == 0)) [ inl h ↦ rw (h) tt | inr h ↦ rw (h) tt ])

abbrev unicast_method : String
unicast_method = "message.unicast"

abbrev dumped : CorrelationData → Option ℕ
dumped (subscription_delete n) = none
dumped (message_unicast r) =
    if r.agent_id == 7 && same_text r.method unicast_method then some r.correlation_data else none

abbrev parsed : ℕ → Option CorrelationData
parsed n =
    some (message_unicast (record { agent_id = 7; method = unicast_method; correlation_data = n }))

parsed-dumped : (d : CorrelationData) (n : ℕ) → dumped d ≡ some n → parsed n ≡ some d
parsed-dumped (subscription_delete m) n h = ground (arith, h)
parsed-dumped (message_unicast r) n h = elim (Bool-cases (r.agent_id == 7)) [
  | inr a ↦ ground (arith, h, a)
  | inl a ↦ elim (Bool-cases (same_text r.method unicast_method)) [
    | inr m ↦ ground (arith, h, a, m)
    | inl m ↦
        let id : r.agent_id ≡ 7 = ==→eq r.agent_id 7 a in
        let method : r.method ≡ unicast_method = same_text→eq r.method unicast_method m in
        let data_ : r.correlation_data ≡ n = ground (arith, h, a, m) in
        λ i. some (
          message_unicast
            (record { agent_id = sym id i; method = sym method i; correlation_data = sym data_ i }))
  ]
]

abbrev codec : Codec
codec = record {
  dump = dumped;
  parse = parsed;
  response_topic = λ agent. some (agent + 100);
  empty_object = 0;
}

abbrev tables : Tables
tables = record { rooms = room ∷ []; agents = agents }

abbrev payload : UnicastRequest
payload = record { agent_id = 8; room_id = 2; data_ = 33 }

-- Agent 7 sends 33 to agent 8, who answers 34.
route_response-unicast_example :
    (r : Room.Object) × (find_room_by_id 2 opened 100 (room ∷ []) ≡ ok r)
    × (check_room_presence r 7 agents ≡ ok tt)
    × (check_room_presence r 8 agents ≡ ok tt)
    × (topic : ℕ) × (corr : ℕ) × ((unicast_request 8 unicast_method 108 40 33 ∷ [])
        ≡ unicast_request 8 unicast_method topic corr 33 ∷ [])
    × (route_response codec
          (λ r cd. [])
          (unicast_response_to 34)
          (record { status = AppError.ok; correlation_data = corr })
        ≡ unicast_response request (record { status = AppError.ok; correlation_data = 40 }) 34 ∷ [])
unfolding unicast find
route_response-unicast_example =
    route_response-unicast codec 100 tables payload request
      (record {
        notifications = unicast_request 8 unicast_method 108 40 33 ∷ [];
        status = AppError.ok;
        payload = some 0;
      })
      (λ r cd. []) (record { status = AppError.ok; correlation_data = 40 }) 34 parsed-dumped refl

-- A number is printed as so many letters.
abbrev letters : ℕ → List ℕ
letters zero = []
letters (suc n) = b'x' ∷ letters n

abbrev unary : HandleId.Codec
unary = record { print = letters; parse = λ s. some (length s) }

length-letters : (n : ℕ) → length (letters n) ≡ n
length-letters zero = refl
length-letters (suc n) = ap (λ m. suc m) (length-letters n)

letters-IsUndotted : (n : ℕ) → IsUndotted (letters n)
letters-IsUndotted zero = refl
letters-IsUndotted (suc n) = letters-IsUndotted n

read_back : (n : ℕ) → unary.parse (unary.print n) ≡ some n
read_back n = ap (λ m. some m) (length-letters n)

abbrev codecs : Codecs
codecs = record { id = unary; janus_id = unary; agent_id = unary }

abbrev handle : HandleId
handle = record {
  rtc_stream_id = 5;
  rtc_id = 2;
  janus_handle_id = 3;
  janus_session_id = 1;
  backend_id = 4;
}

from_str-to_string_example : from_str codecs (to_string codecs handle) ≡ ok handle
from_str-to_string_example =
    from_str-to_string codecs handle read_back read_back read_back letters-IsUndotted
      letters-IsUndotted

abbrev at : ℤ → ℕ → DateTime
at v n = record { timestamp = v; nanos = n }

abbrev closed : Time
closed = record { lt = excluded (at (negsuc 0) 5); rt = included (at (pos 9) 7) }

-- The end at 9 seconds is read back as one at 8 seconds, excluded.
deserialize_option-serialize_option_example :
    deserialize_option (λ v. some (second v)) (serialize_option (some closed))
    ≡ ok (some (record { lt = included (at (pos 0) 0); rt = excluded (at (pos 8) 0) }))
unfolding Serde.succ Serde.pred
deserialize_option-serialize_option_example =
    deserialize_option-serialize_option (λ v. some (second v)) closed (λ v h. refl)
