-- ===== src/Db/JanusBackend/Choice.antt =====
-- Which backend a room is given.
use Prim.Native.String.{String}
use conferences.Base.{
  ℕ, ◌+◌, ◌≤◌, max, ◌≡◌, refl, sym, subst, inl, inr, List, [], ◌∷◌, Option, some, Bool, true, false,
  not, ◌==◌, ==→eq, leb, filter, length, take, head?, Has, ok, Option-cases, Bool-cases, arith,
}
use conferences.Base.Sorting.{
  order_by, Has-order_by, few_before-take, Has-take, Has-head?, Has-filter,
}
use conferences.Base.Table.{find, update_where, IsUnique, Fresh}
use conferences.Db.Room
use conferences.Db.Room.Writes.{write_rows, found_id}
use conferences.Db.JanusBackend.{Object}
use conferences.Db.JanusBackend.Load.{
  Tables, wanted, reserve_of, taken, load, sum_active, balancer_capacity_of, is_compatible,
  can_host, is_freer, most_loaded, least_loaded,
}

is_freer_total : (t : Tables) (a b : Object) → is_freer t a b ≡ false → is_freer t b a ≡ true
unfolding is_freer
is_freer_total t a b h = ground arith

is_freer_trans :
    (t : Tables) (a b c : Object)
    → is_freer t a b ≡ true
    → is_freer t b c ≡ true
    → is_freer t a c ≡ true
unfolding is_freer
is_freer_trans t a b c h k = ground arith

is_freer_refl : (t : Tables) (a : Object) → is_freer t a a ≡ true
unfolding is_freer
is_freer_refl t a = ground arith

module _ (random_order : List Object → List Object)
    (reorders : (b : Object) (xs : List Object) → Has b (random_order xs) → Has b xs) where
  -- The least loaded backend is one that fits the group and the version of the API, and at most two of
  -- those have more free capacity.
  pub least_loaded_near :
      (t : Tables) (room_id : ℕ) (group : Option String) (b : Object)
      → least_loaded random_order t room_id group ≡ some b
      → Has b t.backends
        × (is_compatible group b ≡ true)
        × (length (filter (λ c. not (is_freer t b c)) (filter (is_compatible group) t.backends))
            ≤ 2)
  unfolding least_loaded
  least_loaded_near t room_id group b h = elim (Option-cases (Room.find_query room_id t.rooms)) [
    | inl n ↦ ground (arith, h, n)
    | inr (r, e) ↦
        let fits = filter (is_compatible group) t.backends in
        let sorted = order_by (is_freer t) fits in
        let first : head? (random_order (take 3 sorted)) ≡ some b = ground (arith, h, e) in
        let stands =
          reorders b (take 3 sorted) (Has-head? b (random_order (take 3 sorted)) first) in
        let passes =
          Has-filter (is_compatible group) b t.backends
            (Has-order_by (is_freer t) b fits (Has-take 3 b sorted stands)) in
        (
          passes.1,
          passes.0,
          few_before-take (is_freer t) (is_freer_total t) (is_freer_trans t) (is_freer_refl t) 2 b
              fits stands,
        )
  ]

  -- The most loaded backend fits the room with its reserve on top of its load.
  most_loaded_hosts :
      (t : Tables) (room_id : ℕ) (group : Option String) (b : Object) (r : Room.Object)
      → Room.find_query room_id t.rooms ≡ some r
      → most_loaded random_order t room_id group ≡ some b
      → can_host t group r b ≡ true
  unfolding most_loaded
  most_loaded_hosts t room_id group b r e h =
      let fits = filter (can_host t group r) t.backends in
      let before : Object → Object → Bool = λ a c. leb (load t c.id) (load t a.id) in
      let sorted = order_by before (random_order fits) in
      let first : head? sorted ≡ some b = ground (arith, h, e) in
      (Has-filter (can_host t group r) b t.backends
        (reorders b fits (Has-order_by before b (random_order fits) (Has-head? b sorted first)))).0

-- What the write of a room's backend makes of its row.
abbrev hosted : ℕ → Room.Object → Room.Object
hosted b r = Room.updated (record Room.new_update { backend_id = some b }) r

module _ (now c id b : ℕ) (f : Room.Object → ℕ)
    (keeps : (x : Room.Object) → f (hosted b x) ≡ f x) where
  -- A sum over the rooms does not see a write of another row.
  sum_active-Fresh :
      (rs : List Room.Object)
      → Fresh Room.Object.id id rs
      → sum_active now c f (update_where (Room.has_id id) (hosted b) rs) ≡ sum_active now c f rs
  unfolding sum_active update_where
  sum_active-Fresh [] h = refl
  sum_active-Fresh (x ∷ xs) h = elim (Bool-cases (x.id == id)) [
    | inl t ↦ elim (h.0 (==→eq x.id id t)) [ ]
    | inr n ↦ rw (n, sum_active-Fresh xs h.1) refl
  ]

  sum_active_skip :
      (x : Room.Object) (rs qs : List Room.Object) (k : ℕ)
      → sum_active now c f qs ≤ sum_active now c f rs + k
      → sum_active now c f (x ∷ qs) ≤ sum_active now c f (x ∷ rs) + k
  unfolding sum_active
  sum_active_skip x rs qs k h = ground arith

  sum_active_first :
      (x y : Room.Object) (rs qs : List Room.Object)
      → f y ≡ f x
      → sum_active now c f qs ≡ sum_active now c f rs
      → sum_active now c f (y ∷ qs) ≤ sum_active now c f (x ∷ rs) + f x
  unfolding sum_active
  sum_active_first x y rs qs e h = ground arith

  -- It grows by at most the value of the row that is written.
  sum_active-hosted :
      (rs : List Room.Object) (r : Room.Object)
      → IsUnique Room.Object.id rs
      → Room.find_query id rs ≡ some r
      → sum_active now c f (update_where (Room.has_id id) (hosted b) rs)
        ≤ sum_active now c f rs + f r
  unfolding update_where Room.find_query find
  sum_active-hosted [] r u h = ground arith
  sum_active-hosted (x ∷ xs) r u h = elim (Bool-cases (x.id == id)) [
    | inl t ↦
        let fresh : Fresh Room.Object.id id xs =
          subst (λ n. Fresh Room.Object.id n xs) (==→eq x.id id t) u.0 in
        let same : x ≡ r = ground (arith, h, t) in
        rw (t, sym same)
          (sum_active_first x (hosted b x) xs _ (keeps x) (sum_active-Fresh xs fresh))
    | inr n ↦
        let there : Room.find_query id xs ≡ some r = ground (arith, h, n) in
        rw n (sum_active_skip x xs _ (f r) (sum_active-hosted xs r u.1 there))
  ]

fits :
    (t : Tables) (group : Option String) (b : Object) (r : Room.Object) (n : ℕ)
    → n ≤ load t b.id + max (taken t r.id) (reserve_of r)
    → taken t r.id ≤ wanted r
    → can_host t group r b ≡ true
    → n ≤ balancer_capacity_of b
unfolding can_host
fits t group b r n h k c = ground arith

module _ (random_order : List Object → List Object)
    (reorders : (b : Object) (xs : List Object) → Has b (random_order xs) → Has b xs) where
  -- A room that is given the most loaded backend does not load it over its capacity, if what is taken in
  -- the room is no more than its reserve, or one slot where it has none.
  pub most_loaded_fits :
      (t : Tables) (room_id : ℕ) (group : Option String) (b : Object) (r p : Room.Object)
      (rooms : List Room.Object)
      → IsUnique Room.Object.id t.rooms
      → Room.find_query room_id t.rooms ≡ some r
      → taken t room_id ≤ wanted r
      → most_loaded random_order t room_id group ≡ some b
      → Room.update_query (record Room.new_update { backend_id = some b.id }) room_id t.rooms
        ≡ (rooms, ok p)
      → load (record t { rooms = rooms }) b.id ≤ balancer_capacity_of b
  unfolding Room.update_query load Room.new_update
  most_loaded_fits t room_id group b r p rooms u e k m w =
      let hosts = most_loaded_hosts random_order reorders t room_id group b r e m in
      let f : Room.Object → ℕ = λ x. max (taken t x.id) (reserve_of x) in
      let all = update_where (Room.has_id room_id) (hosted b.id) t.rooms in
      let same : rooms ≡ all = write_rows room_id (hosted b.id) t.rooms rooms p w in
      let grows : sum_active t.now b.id f all ≤ load t b.id + f r =
        sum_active-hosted t.now b.id room_id b.id f (λ x. refl) t.rooms r u e in
      let id : r.id ≡ room_id = found_id room_id t.rooms r e in
      let bound = fits t group b r (sum_active t.now b.id f all) grows (rw id k) hosts in
      rw same bound
