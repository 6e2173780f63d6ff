-- ===== src/Db/JanusBackend/Capacity.antt =====
-- The free capacity of the backend of an RTC, which `rtc.connect` compares with nothing but zero.
use conferences.Base.{ℕ, ◌+◌, ◌-◌, ◌*◌, ◌≤◌, max, ◌≡◌, refl, ◌↔◌, List, [], ◌∷◌, some, ok, arith}
use conferences.Base.Table.{find}
use conferences.Db.Room
use conferences.Db.Rtc
use conferences.Db.JanusBackend.{Object, has_id}
use conferences.Db.JanusBackend.Load.{
  Tables, slot, reserve_of, taken, total_taken, load, sum_active, capacity_of, to_int, free_of,
  free_for, active_room, free_capacity,
}

sum_active_le :
    (now b : ℕ) (f g : Room.Object → ℕ) (rs : List Room.Object)
    → ((r : Room.Object) → f r ≤ g r)
    → sum_active now b f rs ≤ sum_active now b g rs
unfolding sum_active
sum_active_le now b f g [] h = omega arith
sum_active_le now b f g (r ∷ rs) h = ground (arith, h r, sum_active_le now b f g rs h)

-- The load counts at least what is taken.
pub total_taken_le_load : (t : Tables) (b : ℕ) → total_taken t b ≤ load t b
unfolding total_taken load
total_taken_le_load t b =
    sum_active_le t.now b (λ r. taken t r.id) (λ r. max (taken t r.id) (reserve_of r)) t.rooms
      (λ r. omega arith)

free_of_zero : (c a l x y : ℕ) → (to_int (free_of c a l x y) ≡ 0) ↔ (c ≤ a)
unfolding to_int free_of
free_of_zero c a l x y = ground arith

free_of_le : (c a l x y : ℕ) → a ≤ l → to_int (free_of c a l x y) * slot ≤ max slot (c - a) + 500000
unfolding to_int free_of
free_of_le c a l x y h = ground arith

free_capacity_value :
    (t : Tables) (rtc_id b : ℕ) (rtc : Rtc.Object) (r : Room.Object) (backend : Object)
    → Rtc.find_query t.rtcs rtc_id ≡ some rtc
    → active_room t rtc.room_id ≡ some r
    → r.backend_id ≡ some b
    → find (has_id b) t.backends ≡ some backend
    → free_capacity t rtc_id
      ≡ ok (
          to_int (
            free_of
              (capacity_of (some backend))
              (total_taken t b)
              (load t b)
              (taken t rtc.room_id)
              (reserve_of r)))
unfolding free_capacity free_for
free_capacity_value t rtc_id b rtc r backend e1 e2 e3 e4 =
    rw (free_capacity, e1, e2, free_for, e3, e4) refl

-- The number of free slots is 0 exactly when what is taken fills the capacity of the backend; else it is
-- at most what the capacity leaves, up to the rounding to whole slots and the one slot that is always
-- granted.
pub free_capacity_bounds :
    (t : Tables) (rtc_id b n : ℕ) (rtc : Rtc.Object) (r : Room.Object) (backend : Object)
    → Rtc.find_query t.rtcs rtc_id ≡ some rtc
    → active_room t rtc.room_id ≡ some r
    → r.backend_id ≡ some b
    → find (has_id b) t.backends ≡ some backend
    → free_capacity t rtc_id ≡ ok n
    → ((n ≡ 0) ↔ (capacity_of (some backend) ≤ total_taken t b))
      × (n * slot ≤ max slot (capacity_of (some backend) - total_taken t b) + 500000)
free_capacity_bounds t rtc_id b n rtc r backend e1 e2 e3 e4 e5 =
    let all = total_taken t b in
    let c = capacity_of (some backend) in
    let v = free_of c all (load t b) (taken t rtc.room_id) (reserve_of r) in
    let same : n ≡ to_int v = ground (arith, e5, free_capacity_value t rtc_id b rtc r backend) in
    (
      rw same (free_of_zero c all (load t b) (taken t rtc.room_id) (reserve_of r)),
      rw same (
          free_of_le c all (load t b) (taken t rtc.room_id) (reserve_of r)
            (total_taken_le_load t b)),
    )
