-- ===== src/Db/JanusBackend/Reconnect.antt =====
-- A backend that comes back online, and the delete that a lost session brings late.
use conferences.Base.{ℕ, ◌≡◌, refl, List, some, false, ◌&&◌, ◌==◌, ==_refl, or_else, arith}
use conferences.Base.Table.Laws.{find-upsert, find-delete_where_kept}
use conferences.Db.JanusBackend.{
  Object, UpsertQuery, find_query, upsert_query, delete_query, is_deleted, inserted, updated,
  has_id,
}

-- A backend that registers again keeps the capacities and the group that it does not give, takes the new
-- session and handle, and is not deleted by a delete for another session or handle.
delete_query-upsert_query :
    (q : UpsertQuery) (now session_id handle_id : ℕ) (rows : List Object) (o : Object)
    → find_query rows q.id ≡ some o
    → (q.session_id == session_id && q.handle_id == handle_id) ≡ false
    → (find_query ((delete_query q.id session_id handle_id (upsert_query q now rows)).0) q.id
        ≡ some (updated q o))
      × ((updated q o).capacity ≡ or_else q.capacity o.capacity)
      × ((updated q o).balancer_capacity ≡ or_else q.balancer_capacity o.balancer_capacity)
      × ((updated q o).group ≡ or_else q.group o.group)
unfolding find_query delete_query upsert_query updated is_deleted inserted
delete_query-upsert_query q now session_id handle_id rows o h n =
    let there : find_query (upsert_query q now rows) q.id ≡ some (updated q o) =
      rw (find-upsert (has_id q.id) (updated q) (inserted q now) rows (==_refl q.id) (λ x. refl), h)
        refl in
    (
      find-delete_where_kept (has_id q.id) (is_deleted q.id session_id handle_id) _ (updated q o)
          there (ground (arith, n)),
      refl,
      refl,
      refl,
    )
