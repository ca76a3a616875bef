-- ===== src/Ttl/Keys.antt =====
-- The entries of the cache of internal/service/ttl/ttl.go: how many, and of which keys.
use agent_fox.Table.Counting.{
  count_where-delete-le, count_where-append, count_where-delete, count_where-exists,
  length-delete_where, exists_where-counted,
}
use agent_fox.Jobs.Model.{ℤ, pos, negsuc}
use agent_fox.Table.{delete_where, count_where, exists_where}
use agent_fox.Ttl.{
  Cache, new_cache, Item, get, delete, delete_if, drop_expired, drop_front, make_room, len, ℤ,
  has_key, put,
}
use agent_fox.Prelude.{
  Eq, ◌≤◌, Bool, ℕ, arith, List, length, ◌∷◌, ◌+◌, [], ◌≡◌, ◌++◌, true, Bool-cases, false,
  length-append, inl, ◌==◌, inr, subst, ==_iff,
}

module _ {K V : Type 0} ⦃e : Eq K⦄ where
  -- The bounds of a cache: it holds something and no more than its capacity, and one entry of a key.
  pub record IsBounded (c : Cache K V) : Type 0 where
    pub positive : 1 ≤ c.capacity
    pub full : len c ≤ c.capacity
    pub single : (k : K) → count_where (has_key k) c.items ≤ 1

  pub new_cache-IsBounded : (n : ℤ) (ttl : ℕ) → IsBounded (new_cache n ttl)
  unfolding new_cache count_where
  new_cache-IsBounded (pos n) ttl = record {
    positive = omega arith;
    full = omega arith;
    single = λ k. omega arith;
  }
  new_cache-IsBounded (negsuc n) ttl = record {
    positive = omega arith;
    full = omega arith;
    single = λ k. omega arith;
  }

  -- A delete of entries keeps the bounds.
  deleted-IsBounded :
      (p : Item K V → Bool) (c : Cache K V)
      → IsBounded c
      → IsBounded (record c { items = delete_where p c.items })
  deleted-IsBounded p c h = record {
    positive = h.positive;
    full = omega (arith, length-delete_where p c.items, h.full);
    single = λ k. omega (arith, count_where-delete-le (has_key k) p c.items, h.single k);
  }

  pub get-IsBounded : (now : ℕ) (k : K) (c : Cache K V) → IsBounded c → IsBounded (get now k c).1
  unfolding get
  get-IsBounded now k c h = ground (arith, deleted-IsBounded (has_key k) c h)

  pub delete-IsBounded : (k : K) (c : Cache K V) → IsBounded c → IsBounded (delete k c)
  unfolding delete
  delete-IsBounded k c h = ground (arith, deleted-IsBounded (has_key k) c h)

  pub delete_if-IsBounded :
      (pred : K → V → Bool) (c : Cache K V) → IsBounded c → IsBounded (delete_if pred c).1
  unfolding delete_if
  delete_if-IsBounded pred c h = deleted-IsBounded (λ it. pred it.key it.value) c h

  -- Room for one more.
  drop_expired-length :
      (ttl now : ℕ) (its : List (Item K V)) → length (drop_expired ttl now its) ≤ length its
  unfolding drop_expired
  drop_expired-length ttl now [] = omega arith
  drop_expired-length ttl now (x ∷ its) = ground (arith, drop_expired-length ttl now its)

  drop_expired-count :
      (p : Item K V → Bool) (ttl now : ℕ) (its : List (Item K V))
      → count_where p (drop_expired ttl now its) ≤ count_where p its
  unfolding drop_expired count_where
  drop_expired-count p ttl now [] = omega arith
  drop_expired-count p ttl now (x ∷ its) = ground (arith, drop_expired-count p ttl now its)

  drop_front-length :
      (its : List (Item K V)) (n : ℕ) → length its ≤ n → 1 ≤ n → length (drop_front its) + 1 ≤ n
  unfolding drop_front
  drop_front-length [] n h l = omega (arith, l)
  drop_front-length (x ∷ its) n h l = omega (arith, h)

  drop_front-count :
      (p : Item K V → Bool) (its : List (Item K V))
      → count_where p (drop_front its) ≤ count_where p its
  unfolding drop_front count_where
  drop_front-count p [] = omega arith
  drop_front-count p (x ∷ its) = ground arith

  make_room-length :
      (now : ℕ) (c : Cache K V) → IsBounded c → length (make_room now c) + 1 ≤ c.capacity
  unfolding make_room
  make_room-length now c h = ground (
    arith,
    drop_expired-length c.ttl now c.items,
    drop_front-length (drop_expired c.ttl now c.items) c.capacity,
    h.full,
    h.positive,
  )

  pub make_room-count :
      (p : Item K V → Bool) (now : ℕ) (c : Cache K V)
      → count_where p (make_room now c) ≤ count_where p c.items
  unfolding make_room
  make_room-count p now c = ground (
    arith,
    drop_expired-count p c.ttl now c.items,
    drop_front-count p (drop_expired c.ttl now c.items),
  )

  -- One more entry of a key that the list does not hold.
  appended_single :
      (k : K) (its : List (Item K V)) (new : Item K V)
      → count_where (has_key new.key) its ≡ 0
      → count_where (has_key k) its ≤ 1
      → count_where (has_key k) (its ++ new ∷ []) ≤ 1
  appended_single k its new none_of u = elim (Bool-cases (new.key == k)) [
    | inl same ↦ ground (
      arith,
      count_where-append (has_key k) its new,
      subst (λ i. count_where (has_key i) its ≡ 0) ((==_iff new.key k).0 same) none_of,
    )
    | inr other ↦ ground (arith, count_where-append (has_key k) its new)
  ]

  put_known-IsBounded :
      (now : ℕ) (k : K) (v : V) (c : Cache K V)
      → IsBounded c
      → exists_where (has_key k) c.items ≡ true
      → IsBounded (record c {
        items =
            delete_where (has_key k) c.items ++ (record { key = k; value = v; stored = now }) ∷ [];
      })
  put_known-IsBounded now k v c h there =
      let new : Item K V = record { key = k; value = v; stored = now } in
      record {
        positive = h.positive;
        full = omega (
          arith,
          length-append (delete_where (has_key k) c.items) (new ∷ []),
          length-delete_where (has_key k) c.items,
          exists_where-counted (has_key k) c.items there,
          h.full,
        );
        single = λ i.
            appended_single i (delete_where (has_key k) c.items) new
              (count_where-delete (has_key k) c.items)
              ((deleted-IsBounded (has_key k) c h).single i);
      }

  put_new-IsBounded :
      (now : ℕ) (k : K) (v : V) (c : Cache K V)
      → IsBounded c
      → exists_where (has_key k) c.items ≡ false
      → IsBounded (record c {
        items = make_room now c ++ (record { key = k; value = v; stored = now }) ∷ [];
      })
  put_new-IsBounded now k v c h absent =
      let new : Item K V = record { key = k; value = v; stored = now } in
      record {
        positive = h.positive;
        full = omega (arith, length-append (make_room now c) (new ∷ []), make_room-length now c h);
        single = λ i.
            appended_single i (make_room now c) new
              (omega (
                arith,
                make_room-count (has_key k) now c,
                count_where-exists (has_key k) c.items absent,
              ))
              (omega (arith, make_room-count (has_key i) now c, h.single i));
      }

  pub put-IsBounded :
      (now : ℕ) (k : K) (v : V) (c : Cache K V) → IsBounded c → IsBounded (put now k v c)
  unfolding put
  put-IsBounded now k v c h = elim (Bool-cases (exists_where (has_key k) c.items)) [
    | inl there ↦ rw there (put_known-IsBounded now k v c h there)
    | inr absent ↦ rw absent (put_new-IsBounded now k v c h absent)
  ]
