-- ===== src/Ttl/Behaviour.antt =====
-- The calls of the cache of internal/service/ttl/ttl.go together.
use agent_fox.Jobs.Model.{ℤ, pos, negsuc}
use Prim.Native.Nat.{◌≤◌}
use agent_fox.Ttl.Order.{
  Ordered, Ordered-later, Ordered-append, Ordered-delete, make_room-Ordered, make_room_scan,
}
use agent_fox.Table.Counting.{exists_where-count, count_where-delete, count_where-exists}
use agent_fox.Table.Lookup.{
  select_first-append, exists_where-select_first, select_first-delete_apart,
}
use agent_fox.Table.{count_where, select_first, exists_where, delete_where}
use agent_fox.Ttl.Keys.{
  IsBounded, get-IsBounded, put-IsBounded, delete-IsBounded, delete_if-IsBounded,
  new_cache-IsBounded, make_room-count,
}
use agent_fox.Ttl.{
  Item, Cache, get, put, count_where, has_key, expired_at, make_room, use_cache, drop_front, Use,
  gets, len, puts, deletes, deletes_if, delete, delete_if, use_all, new_cache, ℤ,
}
use agent_fox.Prelude.{
  refl, if◌then◌else◌, Eq, List, ℕ, ◌==◌, ◌≡◌, true, ◌++◌, ◌∷◌, [], some, arith, Bool-cases, ltb,
  none, false, ◌+◌, inl, ==_refl, ◌||◌, ◌∙◌, ==_iff, inr,
}

new_cache-Ordered :
    (K V : Type 0) (n : ℤ) (ttl now : ℕ) → Ordered 0 (new_cache {K = K} {V = V} n ttl).items now
unfolding new_cache
new_cache-Ordered K V (pos n) ttl now = omega arith
new_cache-Ordered K V (negsuc n) ttl now = omega arith

module _ {K V : Type 0} ⦃e : Eq K⦄ where
  stored_last :
      (k : K) (its : List (Item K V)) (new : Item K V)
      → (new.key == k) ≡ true
      → count_where (has_key k) its ≡ 0
      → select_first (has_key k) (its ++ new ∷ []) ≡ some new
  stored_last k its new h z = ground (
    arith,
    select_first-append (has_key k) its new,
    exists_where-select_first (has_key k) its,
    exists_where-count (has_key k) its z,
    h,
  )

  -- Put leaves an entry of the key at the end, and no other.
  put_shape :
      (now : ℕ) (k : K) (v : V) (c : Cache K V)
      → (rest : List (Item K V)) × (count_where (has_key k) rest ≡ 0)
        × (put now k v c
            ≡ record c { items = rest ++ (record { key = k; value = v; stored = now }) ∷ [] })
  unfolding put
  put_shape now k v c = elim (Bool-cases (exists_where (has_key k) c.items)) [
    | inl there ↦
        (delete_where (has_key k) c.items, count_where-delete (has_key k) c.items, rw there refl)
    | inr absent ↦ (
      make_room now c,
      omega
          (arith, make_room-count (has_key k) now c, count_where-exists (has_key k) c.items absent),
      rw absent refl,
    )
  ]

  get_found :
      (later : ℕ) (k : K) (c : Cache K V) (it : Item K V)
      → select_first (has_key k) c.items ≡ some it
      → (get later k c).0 ≡ (if expired_at c.ttl later it then none else some it.value)
  unfolding get
  get_found later k c it h = ground (arith, h)

  -- What Put stored is what Get finds until its time has passed, and then it is gone.
  pub get-put :
      (now later : ℕ) (k : K) (v : V) (c : Cache K V)
      → (get later k (put now k v c)).0 ≡ (if ltb later (now + c.ttl) then some v else none)
  get-put now later k v c =
      let (rest, none_of, shape) = put_shape now k v c in
      let new : Item K V = record { key = k; value = v; stored = now } in
      let found =
        get_found later k (record c { items = rest ++ new ∷ [] }) new
          (stored_last k rest new (==_refl k) none_of) in
      rw shape (found ∙ ground arith)

  get_same :
      (later : ℕ) (i : K) (c d : Cache K V)
      → c.ttl ≡ d.ttl
      → select_first (has_key i) c.items ≡ select_first (has_key i) d.items
      → (get later i c).0 ≡ (get later i d).0
  unfolding get
  get_same later i c d t h = ground (arith, h, t)

  -- Put of a key leaves what Get finds of another one, unless the cache had to make room for it.
  pub get-put_other :
      (now later : ℕ) (k i : K) (v : V) (c : Cache K V)
      → (k == i) ≡ false
      → (exists_where (has_key k) c.items || ltb (len c) c.capacity) ≡ true
      → (get later i (put now k v c)).0 ≡ (get later i c).0
  unfolding put make_room
  get-put_other now later k i v c apart room =
      get_same later i (put now k v c) c (ground arith)
        (elim (Bool-cases (exists_where (has_key k) c.items)) [
          | inl there ↦ ground (
            arith,
            there,
            select_first-append (has_key i) (delete_where (has_key k) c.items) new,
            select_first-delete_apart (has_key i) (has_key k) c.items others,
          )
          | inr absent ↦ ground (arith, absent, room, select_first-append (has_key i) c.items new)
        ])
    where
      new : Item K V
      new = record { key = k; value = v; stored = now }

      others : (it : Item K V) → (it.key == k) ≡ true → (it.key == i) ≡ false
      others it h = rw ((==_iff it.key k).0 h) apart

  -- After any calls of a new cache, with a clock that does not run backwards.
  pub record IsRegular (s : ℕ × Cache K V) : Type 0 where
    pub bounded : IsBounded s.1
    pub ordered : Ordered 0 s.1.items s.0

  put-Ordered :
      (now : ℕ) (k : K) (v : V) (c : Cache K V)
      → Ordered 0 c.items now
      → Ordered 0 (put now k v c).items now
  unfolding put
  put-Ordered now k v c h =
      let new : Item K V = record { key = k; value = v; stored = now } in
      elim (Bool-cases (exists_where (has_key k) c.items)) [
        | inl there ↦ rw there (
            Ordered-append 0 (delete_where (has_key k) c.items) new
              (Ordered-delete (has_key k) 0 c.items now h))
        | inr absent ↦
            rw absent (Ordered-append 0 (make_room now c) new (make_room-Ordered now c now h))
      ]

  get-Ordered :
      (now : ℕ) (k : K) (c : Cache K V) (t : ℕ)
      → Ordered 0 c.items t
      → Ordered 0 (get now k c).1.items t
  unfolding get
  get-Ordered now k c t h = ground (arith, h, Ordered-delete (has_key k) 0 c.items t h)

  delete-Ordered :
      (k : K) (c : Cache K V) (t : ℕ) → Ordered 0 c.items t → Ordered 0 (delete k c).items t
  unfolding delete
  delete-Ordered k c t h = ground (arith, h, Ordered-delete (has_key k) 0 c.items t h)

  later : (t d : ℕ) (its : List (Item K V)) → Ordered 0 its t → Ordered 0 its (t + d)
  later t d its h = Ordered-later 0 its t (t + d) (omega arith) h

  use_cache-IsRegular : (s : ℕ × Cache K V) (u : Use K V) → IsRegular s → IsRegular (use_cache s u)
  unfolding use_cache delete_if
  use_cache-IsRegular (t, c) (gets d k) h = record {
    bounded = get-IsBounded (t + d) k c h.bounded;
    ordered = get-Ordered (t + d) k c (t + d) (later t d c.items h.ordered);
  }
  use_cache-IsRegular (t, c) (puts d k v) h = record {
    bounded = put-IsBounded (t + d) k v c h.bounded;
    ordered = put-Ordered (t + d) k v c (later t d c.items h.ordered);
  }
  use_cache-IsRegular (t, c) (deletes d k) h = record {
    bounded = delete-IsBounded k c h.bounded;
    ordered = delete-Ordered k c (t + d) (later t d c.items h.ordered);
  }
  use_cache-IsRegular (t, c) (deletes_if d pred) h = record {
    bounded = delete_if-IsBounded pred c h.bounded;
    ordered =
        Ordered-delete (λ it. pred it.key it.value) 0 c.items (t + d) (later t d c.items h.ordered);
  }

  use_all-IsRegular :
      (s : ℕ × Cache K V) (us : List (Use K V)) → IsRegular s → IsRegular (use_all s us)
  unfolding use_all
  use_all-IsRegular s [] h = h
  use_all-IsRegular s (u ∷ us) h = use_all-IsRegular (use_cache s u) us (use_cache-IsRegular s u h)

  -- After any calls of a new cache, by a clock that does not run backwards: the cache holds no more
  -- entries than its capacity and one entry of a key, and the room that a Put makes is that which a
  -- scan of the whole cache would make. Where the cache is full, every entry that has expired goes,
  -- and where none has, the oldest.
  pub use_all_bounded :
      (n : ℤ) (ttl start now : ℕ) (us : List (Use K V))
      → let c = (use_all (start, new_cache n ttl) us).1 in
        (len c ≤ c.capacity)
        × ((k : K) → count_where (has_key k) c.items ≤ 1)
        × (make_room now c ≡ (
            if ltb (len c) c.capacity
            then c.items
            else if exists_where (expired_at c.ttl now) c.items
            then delete_where (expired_at c.ttl now) c.items
            else drop_front c.items))
  use_all_bounded n ttl start now us =
      let h =
        use_all-IsRegular (start, new_cache n ttl) us
          (record {
            bounded = new_cache-IsBounded n ttl;
            ordered = new_cache-Ordered K V n ttl start;
          }) in
      (h.bounded.full, h.bounded.single, make_room_scan now 0 _ _ h.bounded.full h.ordered)
