-- ===== src/Db/Recording/Ready.antt =====
-- A recording that is ready is never lost to a late report that it is missing.
use conferences.Base.{
  ℕ, ◌≡◌, ◌≢◌, refl, inl, inr, ap, ◌∙◌, List, [], ◌∷◌, Option, none, some, if◌then◌else◌,
  Option-cases, arith,
}
use conferences.Base.Table.{find}
use conferences.Base.Table.Laws.{find-update_where}
use conferences.Db.Recording.{
  Object, Status, in_progress, ready, missing, has_rtc, matches, may_overwrite, overwrite,
  update_query,
}

-- An update of a recording, by the status and the URIs that it sets.
pub record Update : Type 0 where
  pub rtc_id : ℕ
  pub status : Option Status
  pub uris : Option (List ℕ)

abbrev pub run : List Update → List Object → List Object
run [] rows = rows
run (u ∷ us) rows = run us (update_query u.rtc_id u.status u.uris rows).0

-- No update starts the recording over.
abbrev pub NotRestarted : List Update → Type 0
NotRestarted [] = Unit
NotRestarted (u ∷ us) = (u.status ≢ some in_progress) × NotRestarted us

-- The recording of the RTC is found, and is ready.
unfoldable pub HasReady : ℕ → List Object → Type 0
HasReady rtc_id rows = (o : Object) × (find (has_rtc rtc_id) rows ≡ some o) × (o.status ≡ ready)

-- The row that an update leaves in the place of a ready one.
overwritten-ready :
    (j : ℕ) (s : Status) (uris : Option (List ℕ)) (o : Object)
    → s ≢ in_progress
    → o.status ≡ ready
    → (if matches j (some s) o then overwrite s uris o else o).status ≡ ready
unfolding may_overwrite
overwritten-ready j in_progress uris o n h = absurd (n refl)
overwritten-ready j ready uris o n h = ground (arith, h)
overwritten-ready j missing uris o n h = ground (arith, h)

update_query-HasReady :
    (rtc_id j : ℕ) (s : Option Status) (uris : Option (List ℕ)) (rows : List Object)
    → s ≢ some in_progress
    → HasReady rtc_id rows
    → HasReady rtc_id (update_query j s uris rows).0
unfolding HasReady update_query
update_query-HasReady rtc_id j none uris rows n h =
    elim (Option-cases (find (matches j none) rows)) [
      | inl e ↦ rw (update_query, e) h
      | inr (x, e) ↦ rw (update_query, e) h
    ]
update_query-HasReady rtc_id j (some s) uris rows n (o, f, r) =
    elim (Option-cases (find (matches j (some s)) rows)) [
      | inl e ↦ rw (update_query, e) (o, f, r)
      | inr (x, e) ↦
          rw (update_query, e)
            (
              (if matches j (some s) o then overwrite s uris o else o),
              find-update_where (has_rtc rtc_id) (matches j (some s)) (overwrite s uris) rows
                    (λ y. refl)
                  ∙ rw f refl,
              overwritten-ready j s uris o (λ q. n (ap some q)) r,
            )
    ]

-- Once a recording is ready, every run of updates leaves it ready, whichever of them say that it is
-- missing, ready again or nothing, as long as none says that it is in progress.
pub run-HasReady :
    (rtc_id : ℕ) (us : List Update) (rows : List Object)
    → NotRestarted us
    → HasReady rtc_id rows
    → HasReady rtc_id (run us rows)
run-HasReady rtc_id [] rows n h = h
run-HasReady rtc_id (u ∷ us) rows n h =
    run-HasReady rtc_id us (update_query u.rtc_id u.status u.uris rows).0 n.1
      (update_query-HasReady rtc_id u.rtc_id u.status u.uris rows n.0 h)
