-- ===== src/Janus/Pool/Kept.antt =====
-- A task that polls without being cancelled has its client in the pool.
use Prim.Native.String.{String}
use conferences.Base.{
  ℕ, ◌<◌, ◌≡◌, refl, ap, subst, same_text, ==_refl, ◌⊎◌, inl, inr, List, [], ◌∷◌, ◌++◌, Option,
  none, some, Bool, true, false, ◌==◌, All, Has, any, map, Bool-cases, Option-cases, arith,
}
use conferences.Base.Table.{find}
use conferences.Db.JanusBackend.{Object}
use conferences.Janus.Pool.{
  Clients, Entry, Poller, ClientHandle, same_backend, same_option, has_backend, is_set, new,
  inserted, get_client, put_client, get_or_insert, remove, cancel, remove_client, stop_polling,
}

-- The entry of a task.
abbrev entry_of : Poller → Entry
entry_of p = record {
  backend = p.backend;
  handle = record { client = p.backend.janus_url; is_cancelled = p.is_cancelled };
}

-- A task is cancelled, or its client is in the pool.
abbrev pub IsHeld : Clients → Poller → Type 0
IsHeld c p = (is_set p.is_cancelled c ≡ true) ⊎ Has (entry_of p) c.clients

-- No two entries are of one backend.
abbrev pub IsDistinct : List Entry → Type 0
IsDistinct [] = Unit
IsDistinct (e ∷ es) = All (λ x. same_backend e.backend x.backend ≡ false) es × IsDistinct es

-- The flags of the tasks are all different, and were given out.
abbrev pub HasOwnFlags : ℕ → List Poller → Type 0
HasOwnFlags n [] = Unit
HasOwnFlags n (p ∷ ps) = (p.is_cancelled < n) × HasOwnFlags p.is_cancelled ps

abbrev pub IsKept : Clients → Type 0
IsKept c = All (IsHeld c) c.pollers × IsDistinct c.clients × HasOwnFlags c.next_flag c.pollers

-- The pools that the operations reach from an empty one.
pub data Reachable : Clients → Type 0 where
  start : (group : Option String) → Reachable (new group)
  inserting :
      (is_url : String → Bool) (b : Object) {c : Clients}
      → Reachable c
      → Reachable (get_or_insert is_url b c).0
  removing : (b : Object) {c : Clients} → Reachable c → Reachable (remove_client b c)
  stopping : {c : Clients} → Reachable c → Reachable (stop_polling c)

find-none :
    (b : Object) (es : List Entry)
    → find (has_backend b) es ≡ none
    → All (λ x. same_backend b x.backend ≡ false) es
unfolding find has_backend
find-none b [] h = tt
find-none b (e ∷ es) h = ground (arith, h, find-none b es)

All-map :
    {A : Type 0} {P Q : A → Type 0} (xs : List A) → ((x : A) → P x → Q x) → All P xs → All Q xs
All-map [] f h = tt
All-map (x ∷ xs) f h = (f x h.0, All-map xs f h.1)

inserted-IsKept :
    (b : Object) (c : Clients)
    → find (has_backend b) c.clients ≡ none
    → IsKept c
    → IsKept (inserted b c)
unfolding is_set
inserted-IsKept b c h k = (
  (inr (inl refl), All-map c.pollers (λ p l. elim l [ inl s ↦ inl s | inr e ↦ inr (inr e) ]) k.0),
  (find-none b c.clients h, k.1),
  (omega arith, k.2),
)

get_or_insert-IsKept :
    (is_url : String → Bool) (b : Object) (c : Clients)
    → IsKept c
    → IsKept (get_or_insert is_url b c).0
unfolding get_or_insert put_client get_client
get_or_insert-IsKept is_url b c k = elim (Bool-cases (same_option same_text b.group c.group)) [
  | inr h ↦ rw (get_or_insert, h) k
  | inl h ↦ elim (Option-cases (find (has_backend b) c.clients)) [
    | inr (e, f) ↦ rw (get_or_insert, h, f) k
    | inl f ↦ elim (Bool-cases (is_url b.janus_url)) [
      | inr u ↦ rw (get_or_insert, h, f, put_client, f, u) k
      | inl u ↦ rw (get_or_insert, h, f, put_client, f, u) (inserted-IsKept b c f k)
    ]
  ]
]

-- A removal takes out one entry, and tells its flag.
remove-Has :
    (b : Object) (es : List Entry) (e : Entry)
    → Has e es
    → Has e (remove b es).0 ⊎ ((remove b es).1 ≡ some e.handle)
unfolding remove
remove-Has b (x ∷ xs) e h = elim (Bool-cases (has_backend b x)) [
  | inl t ↦ rw (t) (elim h [ inl q ↦ inr (ap (λ y. some y.handle) q) | inr q ↦ inl q ])
  | inr t ↦ rw (t) (elim h [
    | inl q ↦ inl (inl q)
    | inr q ↦ elim (remove-Has b xs e q) [ inl r ↦ inl (inr r) | inr r ↦ inr r ]
  ])
]
remove-Has b [] e h = elim h [ ]

remove-All : (P : Entry → Type 0) (b : Object) (es : List Entry) → All P es → All P (remove b es).0
unfolding remove
remove-All P b [] h = tt
remove-All P b (e ∷ es) h = elim (Bool-cases (has_backend b e)) [
  | inl t ↦ rw (t) h.1
  | inr t ↦ rw (t) (h.0, remove-All P b es h.1)
]

remove-IsDistinct : (b : Object) (es : List Entry) → IsDistinct es → IsDistinct (remove b es).0
unfolding remove
remove-IsDistinct b [] h = tt
remove-IsDistinct b (e ∷ es) h = elim (Bool-cases (has_backend b e)) [
  | inl t ↦ rw (t) h.1
  | inr t ↦ rw (t) (remove-All _ b es h.0, remove-IsDistinct b es h.1)
]

cancel-keeps :
    (flag : ℕ) (h : Option ClientHandle) (flags : List ℕ)
    → any (λ f. f == flag) flags ≡ true
    → any (λ f. f == flag) (cancel h flags) ≡ true
cancel-keeps flag none flags s = s
cancel-keeps flag (some h) flags s = ground (arith, s)

-- The task whose client is taken out is cancelled.
remove_client-IsHeld :
    (b : Object) (c : Clients) (p : Poller) → IsHeld c p → IsHeld (remove_client b c) p
unfolding remove_client is_set
remove_client-IsHeld b c p (inl s) =
    inl (cancel-keeps p.is_cancelled (remove b c.clients).1 c.cancelled s)
remove_client-IsHeld b c p (inr e) = elim (remove-Has b c.clients (entry_of p) e) [
  | inl i ↦ inr i
  | inr q ↦ inl (rw (q, ==_refl p.is_cancelled) refl)
]

remove_client-IsKept : (b : Object) (c : Clients) → IsKept c → IsKept (remove_client b c)
unfolding remove_client
remove_client-IsKept b c k =
    (All-map c.pollers (remove_client-IsHeld b c) k.0, remove-IsDistinct b c.clients k.1, k.2)

any-append : (p : ℕ → Bool) (xs ys : List ℕ) → any p ys ≡ true → any p (xs ++ ys) ≡ true
any-append p [] ys h = h
any-append p (x ∷ xs) ys h = ground (arith, any-append p xs ys h)

any-Has :
    (es : List Entry) (e : Entry) (ys : List ℕ)
    → Has e es
    → any (λ f. f == e.handle.is_cancelled) (map (λ x. x.handle.is_cancelled) es ++ ys) ≡ true
any-Has (x ∷ xs) e ys (inl q) =
    subst
      (λ z.
        any (λ f. f == z.handle.is_cancelled) (map (λ w. w.handle.is_cancelled) (x ∷ xs) ++ ys)
        ≡ true)
      q (rw (==_refl x.handle.is_cancelled) refl)
any-Has (x ∷ xs) e ys (inr h) = ground (arith, any-Has xs e ys h)
any-Has [] e ys h = elim h [ ]

stop_polling-IsKept : (c : Clients) → IsKept c → IsKept (stop_polling c)
unfolding stop_polling is_set
stop_polling-IsKept c k = (
  All-map c.pollers
      (λ p l. elim l [
        | inl s ↦ inl (any-append _ (map (λ e. e.handle.is_cancelled) c.clients) c.cancelled s)
        | inr e ↦ inl (any-Has c.clients (entry_of p) c.cancelled e)
      ])
      k.0,
  k.1,
  k.2,
)

-- In every pool that the operations reach from an empty one, a task that was spawned is cancelled or has its
-- client in the pool, no two clients are of one backend, and the flags of the tasks are different.
pub Reachable-IsKept : (c : Clients) → Reachable c → IsKept c
unfolding new
Reachable-IsKept _ (start group) = (tt, tt, tt)
Reachable-IsKept _ (inserting is_url b {c} r) =
    get_or_insert-IsKept is_url b c (Reachable-IsKept c r)
Reachable-IsKept _ (removing b {c} r) = remove_client-IsKept b c (Reachable-IsKept c r)
Reachable-IsKept _ (stopping {c} r) = stop_polling-IsKept c (Reachable-IsKept c r)
