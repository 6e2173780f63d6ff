-- ===== src/Messages/Answered.antt =====
-- Every request is answered, and once.
use conferences.Base.{
  ℕ, ◌≡◌, refl, List, [], ◌∷◌, ◌++◌, Option, none, some, Bool, true, false, if◌then◌else◌, All,
  filter, length, Result, ok, err, ◌>>=◌, Bool-cases, Option-cases, inl, inr,
}
use conferences.AppError.{ErrorKind}
use conferences.Messages.{
  RequestProperties, Message, broadcast, response, error_response, unicast_request,
  unicast_response, Response, is_no_content, into_mqtt_messages, mqtt_params, RequestHandler,
  or_error, error_of, handle_envelope, handle_request,
}

-- An answer to the request that is handled.
abbrev pub is_answer : Message → Bool
is_answer (broadcast l p r d) = false
is_answer (response reqp s p) = true
is_answer (error_response reqp s k t) = true
is_answer (unicast_request a m t c p) = false
is_answer (unicast_response to r p) = false

abbrev pub answers : List Message → ℕ
answers ms = length (filter is_answer ms)

-- No notification of a response is an answer.
abbrev pub IsPlain : Result ErrorKind Response → Type 0
IsPlain (ok r) = All (λ m. is_answer m ≡ false) r.notifications
IsPlain (err e) = Unit

-- How many answers a result asks for.
abbrev pub expected : Result ErrorKind Response → ℕ
expected (ok r) = if is_no_content r.status then 0 else 1
expected (err e) = 1

answers-append :
    (ns ms : List Message) → All (λ m. is_answer m ≡ false) ns → answers (ns ++ ms) ≡ answers ms
answers-append [] ms h = refl
answers-append (n ∷ ns) ms h = rw (h.0) (answers-append ns ms h.1)

answers-plain : (ns : List Message) → All (λ m. is_answer m ≡ false) ns → answers ns ≡ 0
answers-plain [] h = refl
answers-plain (n ∷ ns) h = rw (h.0) (answers-plain ns h.1)

answers-or_error :
    (reqp : RequestProperties) (r : Result ErrorKind Response)
    → IsPlain r
    → answers (or_error reqp (r >>= λ x. into_mqtt_messages x reqp)) ≡ expected r
unfolding into_mqtt_messages error_of
answers-or_error reqp (err e) h = refl
answers-or_error reqp (ok r) h = elim (Bool-cases (is_no_content r.status)) [
  | inl n ↦ rw (into_mqtt_messages, n) (answers-plain r.notifications h)
  | inr n ↦ elim (Option-cases r.payload) [
    | inl p ↦ rw (into_mqtt_messages, n, p) refl
    | inr (x, p) ↦
        rw (into_mqtt_messages, n, p)
          (answers-append r.notifications (response reqp r.status x ∷ []) h)
  ]
]

-- A request with an unknown method, or with a payload that cannot be read, gets one answer. Any other gets one
-- too, whether its handler succeeds or fails, but none if it succeeds with the status 204; all this if
-- the notifications of the handler are no answers themselves.
pub answers-handle_request :
    {S P : Type 0} (h : RequestHandler S P) (payload : Option P) (reqp : RequestProperties) (s : S)
    → ((p : P) → IsPlain (h.handle s p (mqtt_params reqp)).1)
    → (answers (handle_request {S = S} none reqp s).1 ≡ 1)
      × (answers (handle_request (some (handle_envelope h payload reqp)) reqp s).1
          ≡ elim payload [ none ↦ 1 | some p ↦ expected (h.handle s p (mqtt_params reqp)).1 ])
unfolding handle_request handle_envelope
answers-handle_request h none reqp s plain = (refl, refl)
answers-handle_request h (some p) reqp s plain =
    (refl, answers-or_error reqp (h.handle s p (mqtt_params reqp)).1 (plain p))
