-- ===== src/Ttl.antt =====
-- internal/service/ttl/ttl.go: the bounded cache whose entries expire. A time is a number of
-- nanoseconds. The map of the entries and their list hold the same entries, and are the one list
-- here, the oldest stored first.
pub mod Keys
pub mod Order
pub mod Behaviour
mod Tests
use agent_fox.Table.{delete_where, select_first, exists_where, count_where}
use agent_fox.Jobs.Model.{ℤ, pos, negsuc}
use agent_fox.Prelude.{
  none, ℕ, Eq, List, Bool, Option, if◌then◌else◌, length, ◌==◌, leb, ◌∷◌, ◌++◌, ◌+◌, max, [], some,
}
use Prim.Native.Nat.{ℕ, max}

pub record Item (K V : Type 0) : Type 0 where
  pub key : K
  pub value : V
  pub stored : ℕ

pub record Cache (K V : Type 0) : Type 0 where
  pub capacity : ℕ
  pub ttl : ℕ
  pub items : List (Item K V)

-- The entries and the room for a new one, whatever the keys are.
module _ {K V : Type 0} where
  -- expired
  abbrev pub expired_at : ℕ → ℕ → Item K V → Bool
  expired_at ttl now it = leb (it.stored + ttl) now

  -- New: at most capacity entries, one if capacity is less.
  unfoldable pub new_cache : ℤ → ℕ → Cache K V
  new_cache (pos n) ttl = record { capacity = max n 1; ttl = ttl; items = [] }
  new_cache (negsuc n) ttl = record { capacity = 1; ttl = ttl; items = [] }

  -- The loop of Put over the front of the list.
  unfoldable pub drop_expired : ℕ → ℕ → List (Item K V) → List (Item K V)
  drop_expired ttl now [] = []
  drop_expired ttl now (it ∷ its) =
      let rest = drop_expired ttl now its in if expired_at ttl now it then rest else it ∷ its

  -- c.remove(c.order.Front())
  unfoldable pub drop_front : List (Item K V) → List (Item K V)
  drop_front [] = []
  drop_front (it ∷ its) = its

  -- The room that Put makes for a new key.
  unfoldable pub make_room : ℕ → Cache K V → List (Item K V)
  unfolding drop_expired drop_front
  make_room now c =
      if leb c.capacity (length c.items)
      then (let live = drop_expired c.ttl now c.items in
          if leb c.capacity (length live) then drop_front live else live)
      else c.items

  -- DeleteIf, and how many entries it removed.
  unfoldable pub delete_if : (K → V → Bool) → Cache K V → ℕ × Cache K V
  delete_if pred c = (
    count_where (λ it. pred it.key it.value) c.items,
    record c { items = delete_where (λ it. pred it.key it.value) c.items },
  )

  -- Len
  abbrev pub len : Cache K V → ℕ
  len c = length c.items

-- The value of a call, and the cache after it.
module _ {K V : Type 0} ⦃e : Eq K⦄ where
  abbrev pub has_key : K → Item K V → Bool
  has_key k it = it.key == k

  -- remove, of the entry of a key
  abbrev pub remove_key : K → Cache K V → Cache K V
  remove_key k c = record c { items = delete_where (has_key k) c.items }

  -- Get
  unfoldable pub get : ℕ → K → Cache K V → Option V × Cache K V
  get now k c = elim (select_first (has_key k) c.items) [
    | none ↦ (none, c)
    | some it ↦ if expired_at c.ttl now it then (none, remove_key k c) else (some it.value, c)
  ]

  -- Put
  unfoldable pub put : ℕ → K → V → Cache K V → Cache K V
  unfolding make_room
  put now k v c =
      let new : Item K V = record { key = k; value = v; stored = now } in
      if exists_where (has_key k) c.items
      then record c { items = delete_where (has_key k) c.items ++ new ∷ [] }
      else record c { items = make_room now c ++ new ∷ [] }

  -- Delete
  unfoldable pub delete : K → Cache K V → Cache K V
  delete k c = if exists_where (has_key k) c.items then remove_key k c else c

-- Calls of the cache, each with the time that passed since the one before.
pub data Use (K V : Type 0) : Type 0 where
  gets : ℕ → K → Use K V
  puts : ℕ → K → V → Use K V
  deletes : ℕ → K → Use K V
  deletes_if : ℕ → (K → V → Bool) → Use K V

-- The cache and its clock, before and after a call.
unfoldable pub use_cache : {K V : Type 0} ⦃e : Eq K⦄ → ℕ × Cache K V → Use K V → ℕ × Cache K V
unfolding get put delete delete_if
use_cache (t, c) (gets d k) = (t + d, (get (t + d) k c).1)
use_cache (t, c) (puts d k v) = (t + d, put (t + d) k v c)
use_cache (t, c) (deletes d k) = (t + d, delete k c)
use_cache (t, c) (deletes_if d pred) = (t + d, (delete_if pred c).1)

unfoldable pub use_all : {K V : Type 0} ⦃e : Eq K⦄ → ℕ × Cache K V → List (Use K V) → ℕ × Cache K V
unfolding use_cache
use_all s [] = s
use_all s (u ∷ us) = use_all (use_cache s u) us
