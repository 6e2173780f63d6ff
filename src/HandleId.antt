-- ===== src/HandleId.antt =====
-- src/app/handle_id.rs: the text of a handle id, five parts joined by dots. A text is the list of its code
-- points. How ids, Janus' numbers and agent ids are printed and parsed is given.
pub mod Text
use conferences.Base.{
  ℕ, zero, suc, List, [], ◌∷◌, ◌++◌, Option, none, some, if◌then◌else◌, ◌==◌, Result, ok, err,
  ◌>>=◌, ok_or,
}
use conferences.Endpoint.RtcConnect.{HandleId}

-- `Display` and `FromStr` of one type.
pub record Codec : Type 0 where
  pub print : ℕ → List ℕ
  pub parse : List ℕ → Option ℕ

-- Those of the five parts.
pub record Codecs : Type 0 where
  pub id : Codec
  pub janus_id : Codec
  pub agent_id : Codec

abbrev pub dot : ℕ
dot = b'.'

-- `Display::fmt`.
unfoldable pub to_string : Codecs → HandleId → List ℕ
to_string c h =
    c.id.print h.rtc_stream_id
    ++ (dot
        ∷ (c.id.print h.rtc_id
            ++ (dot
                ∷ (c.janus_id.print h.janus_handle_id
                    ++ (dot
                        ∷ (c.janus_id.print h.janus_session_id
                            ++ (dot ∷ c.agent_id.print h.backend_id)))))))

abbrev pub prepend : ℕ → Option (List ℕ × List ℕ) → Option (List ℕ × List ℕ)
prepend c none = none
prepend c (some (a, b)) = some (c ∷ a, b)

-- What stands before the first dot, and after it.
unfoldable pub split_once : List ℕ → Option (List ℕ × List ℕ)
split_once [] = none
split_once (c ∷ s) = if c == dot then some ([], s) else prepend c (split_once s)

-- `splitn(n, '.')`.
unfoldable pub splitn : ℕ → List ℕ → List (List ℕ)
unfolding split_once
splitn zero s = []
splitn (suc zero) s = s ∷ []
splitn (suc (suc n)) s = elim (split_once s) [ none ↦ s ∷ [] | some (a, b) ↦ a ∷ splitn (suc n) b ]

-- The `match` on the parts; all errors are one.
unfoldable pub from_parts : Codecs → List (List ℕ) → Result (Unit {0}) HandleId
from_parts c (rtc_stream_id ∷ rtc_id ∷ janus_handle_id ∷ janus_session_id ∷ rest ∷ []) = do
  s ← ok_or (c.id.parse rtc_stream_id) tt
  r ← ok_or (c.id.parse rtc_id) tt
  h ← ok_or (c.janus_id.parse janus_handle_id) tt
  j ← ok_or (c.janus_id.parse janus_session_id) tt
  b ← ok_or (c.agent_id.parse rest) tt
  ok (record {
    rtc_stream_id = s;
    rtc_id = r;
    janus_handle_id = h;
    janus_session_id = j;
    backend_id = b;
  })
from_parts c _ = err tt

-- `FromStr::from_str`.
unfoldable pub from_str : Codecs → List ℕ → Result (Unit {0}) HandleId
unfolding splitn from_parts
from_str c s = from_parts c (splitn 5 s)
