-- ===== src/Groups/Default.antt =====
-- The default group, number 0, takes in an agent who enters.

use mathlib.Core.List.{Perm, Permᴰ, append-nil, append_assoc}
use mathlib.Core.Logic.{∥∥₁_elim}
use conferences.Base.{
  ℕ, ◌≡◌, ◌≢◌, refl, sym, ◌∙◌, List, [], ◌∷◌, ◌++◌, Option, none, some, Bool, true, false, ◌&&◌,
  ◌||◌, ◌==◌, arith,
}
use conferences.Base.Table.{find, update_where, upsert, Fresh, IsUnique}
use conferences.Groups.{
  GroupItem, Groups, contains, has_agent, is_agent_exist, collect_from, push_agent,
  add_to_default_group,
}

-- The groups have different numbers.
abbrev pub HasUniqueNumbers : Groups → Type 0
HasUniqueNumbers = IsUnique (λ (g : GroupItem). g.number)

abbrev pub is_some {ℓ} : {A : Type ℓ} → Option A → Bool
is_some none = false
is_some (some x) = true

contains-append : (a b : ℕ) (xs : List ℕ) → contains a (xs ++ b ∷ []) ≡ contains a xs || b == a
unfolding contains
contains-append a b [] = ground arith
contains-append a b (x ∷ xs) = ground (arith, contains-append a b xs)

upsert-Fresh :
    (i : GroupItem) (acc : Groups)
    → Fresh (λ (g : GroupItem). g.number) i.number acc
    → upsert (λ g. g.number == i.number) (λ g. i) i acc ≡ acc ++ i ∷ []
unfolding upsert
upsert-Fresh i [] h = refl
upsert-Fresh i (x ∷ xs) h = ground (arith, upsert-Fresh i xs)

Fresh-append :
    (k : ℕ) (xs : Groups) (i : GroupItem)
    → Fresh (λ (g : GroupItem). g.number) k xs
    → i.number ≢ k
    → Fresh (λ (g : GroupItem). g.number) k (xs ++ i ∷ [])
Fresh-append k [] i h n = (n, tt)
Fresh-append k (x ∷ xs) i h n = (h.0, Fresh-append k xs i h.1 n)

-- No number of `gs` is taken in `acc`.
abbrev AllFresh : Groups → Groups → Type 0
AllFresh acc [] = Unit
AllFresh acc (g ∷ gs) = Fresh (λ (x : GroupItem). x.number) g.number acc × AllFresh acc gs

AllFresh-append :
    (acc gs : Groups) (i : GroupItem)
    → AllFresh acc gs
    → Fresh (λ (g : GroupItem). g.number) i.number gs
    → AllFresh (acc ++ i ∷ []) gs
AllFresh-append acc [] i h f = tt
AllFresh-append acc (g ∷ gs) i h f =
    (Fresh-append g.number acc i h.0 (λ e. f.0 (sym e)), AllFresh-append acc gs i h.1 f.1)

AllFresh-nil : (gs : Groups) → AllFresh [] gs
AllFresh-nil [] = tt
AllFresh-nil (g ∷ gs) = (tt, AllFresh-nil gs)

collect_from_unique :
    (acc gs : Groups) → HasUniqueNumbers gs → AllFresh acc gs → collect_from acc gs ≡ acc ++ gs
unfolding collect_from
collect_from_unique acc [] u f = sym (append-nil acc)
collect_from_unique acc (g ∷ gs) u f = rw (upsert-Fresh g acc f.0) (
    collect_from_unique (acc ++ g ∷ []) gs u.1 (AllFresh-append acc gs g f.1 u.0)
    ∙ append_assoc acc (g ∷ []) gs)

-- Reading a map in another order changes no membership.
Bool_set : IsSet Bool
Bool_set = hlevel

exists-perm : (a : ℕ) {xs ys : Groups} → Permᴰ xs ys → is_agent_exist xs a ≡ is_agent_exist ys a
unfolding is_agent_exist
exists-perm a Permᴰ.nil = refl
exists-perm a (Permᴰ.cons {a = x} {b = y} e p) = rw (e, exists-perm a p) refl
exists-perm a (Permᴰ.swap {a = x} {b = y} {l = l} e f) = rw (e, f) (ground arith)
exists-perm a (Permᴰ.trans p q) = exists-perm a p ∙ exists-perm a q

exists-shuffle : (a : ℕ) (xs ys : Groups) → Perm xs ys → is_agent_exist xs a ≡ is_agent_exist ys a
exists-shuffle a xs ys p = ∥∥₁_elim p (Bool_set _ _) (exists-perm a)

exists-update :
    (a b : ℕ) (gs : Groups)
    → is_agent_exist (update_where (λ g. g.number == 0) (push_agent a) gs) b
      ≡ is_agent_exist gs b || (a == b && is_some (find (λ g. g.number == 0) gs))
unfolding is_agent_exist update_where find has_agent
exists-update a b [] = ground arith
exists-update a b (i ∷ is) = ground (arith, contains-append b a i.agents, exists-update a b is)

-- The agent who is added is found if there is a group 0, or where it was found before; every
-- other agent is found exactly if it was.
pub add_to_default_group-exists :
    (shuffle : Groups → Groups) (groups : Groups) (a b : ℕ)
    → ((xs : Groups) → Perm (shuffle xs) xs)
    → HasUniqueNumbers groups
    → is_agent_exist (add_to_default_group shuffle groups a) b
      ≡ is_agent_exist groups b || (a == b && is_some (find (λ g. g.number == 0) groups))
unfolding add_to_default_group
add_to_default_group-exists shuffle groups a b p u =
    exists-shuffle b _ _ (p _)
    ∙ rw (collect_from_unique [] groups u (AllFresh-nil groups)) (exists-update a b groups)
