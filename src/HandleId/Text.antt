-- ===== src/HandleId/Text.antt =====
-- Handle ids are read back from their text.
use conferences.Base.{
  ℕ, suc, ◌≡◌, ap, ◌∙◌, refl, List, [], ◌∷◌, ◌++◌, some, false, ◌==◌, any, ok, arith,
}
use conferences.HandleId.{Codecs, dot, to_string, split_once, splitn, from_parts, from_str}
use conferences.Endpoint.RtcConnect.{HandleId}

-- A text without a dot.
abbrev pub IsUndotted : List ℕ → Type 0
IsUndotted s = any (λ c. c == dot) s ≡ false

split_once-append : (a b : List ℕ) → IsUndotted a → split_once (a ++ (dot ∷ b)) ≡ some (a, b)
unfolding split_once
split_once-append [] b h = refl
split_once-append (c ∷ a) b h = ground (arith, h, split_once-append a b)

splitn-append :
    (n : ℕ) (a b : List ℕ)
    → IsUndotted a
    → splitn (suc (suc n)) (a ++ (dot ∷ b)) ≡ a ∷ splitn (suc n) b
unfolding splitn
splitn-append n a b h = rw (splitn, split_once-append a b h) refl

parts :
    (a b c d e : List ℕ)
    → IsUndotted a
    → IsUndotted b
    → IsUndotted c
    → IsUndotted d
    → splitn 5 (a ++ (dot ∷ (b ++ (dot ∷ (c ++ (dot ∷ (d ++ (dot ∷ e))))))))
      ≡ a ∷ b ∷ c ∷ d ∷ e ∷ []
unfolding splitn
parts a b c d e h1 h2 h3 h4 =
    splitn-append 3 a _ h1
    ∙ ap (λ r. a ∷ r) (splitn-append 2 b _ h2)
    ∙ ap (λ r. a ∷ b ∷ r) (splitn-append 1 c _ h3)
    ∙ ap (λ r. a ∷ b ∷ c ∷ r) (splitn-append 0 d e h4)

-- What is printed is parsed back, if the parts are, and only the agent id has dots in it.
pub from_str-to_string :
    (c : Codecs) (h : HandleId)
    → ((n : ℕ) → c.id.parse (c.id.print n) ≡ some n)
    → ((n : ℕ) → c.janus_id.parse (c.janus_id.print n) ≡ some n)
    → ((n : ℕ) → c.agent_id.parse (c.agent_id.print n) ≡ some n)
    → ((n : ℕ) → IsUndotted (c.id.print n))
    → ((n : ℕ) → IsUndotted (c.janus_id.print n))
    → from_str c (to_string c h) ≡ ok h
unfolding from_str to_string from_parts
from_str-to_string c h p1 p2 p3 d1 d2 =
    let split =
      parts (c.id.print h.rtc_stream_id) (c.id.print h.rtc_id) (c.janus_id.print h.janus_handle_id)
        (c.janus_id.print h.janus_session_id) (c.agent_id.print h.backend_id) (d1 h.rtc_stream_id)
        (d1 h.rtc_id) (d2 h.janus_handle_id) (d2 h.janus_session_id) in
    rw
      (
        split,
        p1 h.rtc_stream_id,
        p1 h.rtc_id,
        p2 h.janus_handle_id,
        p2 h.janus_session_id,
        p3 h.backend_id,
      )
      refl
