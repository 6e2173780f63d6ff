-- ===== src/Endpoint/Vacuum/Listed.antt =====
-- Which recordings the query of the vacuum finds.
use Prim.Native.String.{String}
use conferences.Base.{
  ℕ, ◌∙◌, Option-cases, Bool-cases, ap, ◌<◌, Option, true, same_text, lt→ltb, ◌≡◌, refl, inl, inr,
  List, [], ◌∷◌, some, map, Has,
}
use conferences.Db.JanusBackend.{janus_api_version}
use conferences.Db.JanusBackend
use conferences.Db.Recording
use conferences.Db.Room.{bound_value}
use conferences.Db.Room
use conferences.Db.Rtc
use conferences.Endpoint.Vacuum.{
  Tables, Unfinished, unfinished_of, join, is_unfinished, is_over, is_sharing, in_group,
}

pub Has-map : {A B : Type 0} (f : A → B) (x : A) (xs : List A) → Has x xs → Has (f x) (map f xs)
Has-map f x [] h = elim h [ ]
Has-map f x (y ∷ ys) (inl e) = inl (ap f e)
Has-map f x (y ∷ ys) (inr k) = inr (Has-map f x ys k)

pub Has-unfinished_of :
    (group : Option String) (now : ℕ) (t : Tables) (os : List Recording.Object)
    (o : Recording.Object) (u : Unfinished)
    → Has o os
    → join t o ≡ some u
    → is_unfinished group now u ≡ true
    → Has u (unfinished_of group now t os)
unfolding unfinished_of
Has-unfinished_of group now t [] o u h j k = elim h [ ]
Has-unfinished_of group now t (x ∷ xs) o u (inl e) j k =
    rw (unfinished_of, ap (join t) e ∙ j, k) (inl refl)
Has-unfinished_of group now t (x ∷ xs) o u (inr h) j k =
    let rest = Has-unfinished_of group now t xs o u h j k in
    elim (Option-cases (join t x)) [
      | inl n ↦ rw (unfinished_of, n) rest
      | inr (y, n) ↦ elim (Bool-cases (is_unfinished group now y)) [
        | inl w ↦ rw (unfinished_of, n, w) (inr rest)
        | inr w ↦ rw (unfinished_of, n, w) rest
      ]
    ]

pub join_found :
    (t : Tables) (o : Recording.Object) (rtc : Rtc.Object) (room : Room.Object) (id : ℕ)
    (b : JanusBackend.Object)
    → Rtc.find_query t.rtcs o.rtc_id ≡ some rtc
    → Room.find_query rtc.room_id t.rooms ≡ some room
    → room.backend_id ≡ some id
    → JanusBackend.find_query t.backends id ≡ some b
    → join t o ≡ some (record { room = room; recording = o; backend = b })
unfolding join
join_found t o rtc room id b r f i g = simp (join, r, f, i, g)

pub unfinished :
    (group : Option String) (now e : ℕ) (u : Unfinished)
    → u.recording.status ≡ Recording.in_progress
    → is_sharing u.room.rtc_sharing_policy ≡ true
    → bound_value u.room.time.end ≡ some e
    → e < now
    → same_text u.backend.api_version janus_api_version ≡ true
    → in_group group u.backend.group ≡ true
    → is_unfinished group now u ≡ true
unfolding is_unfinished is_over
unfinished group now e u s p b lt v g =
    rw (is_unfinished, is_over, p, v, b, lt→ltb e now lt, s, g) refl
