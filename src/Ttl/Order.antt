-- ===== src/Ttl/Order.antt =====
-- The order of the entries of the cache of internal/service/ttl/ttl.go.
use agent_fox.Table.Counting.{length-delete_where, exists_where-counted, delete_where-none}
use agent_fox.Ttl.{drop_expired, Item, expired_at, make_room, Cache, drop_front}
use agent_fox.Table.{delete_where, exists_where}
use agent_fox.Prelude.{
  if◌then◌else◌, ℕ, List, ◌≤◌, Bool, ◌<◌, ◌≡◌, ◌++◌, ◌∷◌, arith, ◌+◌, [], Bool-cases, leb, inl,
  false, inr, ap, sym, refl, length, ltb,
}

module _ {K V : Type 0} where
  -- No entry was stored after one that stands behind it, nor after the time t.
  abbrev pub Ordered : ℕ → List (Item K V) → ℕ → Type 0
  Ordered from [] t = from ≤ t
  Ordered from (it ∷ its) t = (from ≤ it.stored) × Ordered it.stored its t

  pub Ordered-le : (from : ℕ) (its : List (Item K V)) (t : ℕ) → Ordered from its t → from ≤ t
  Ordered-le from [] t h = h
  Ordered-le from (x ∷ its) t h = omega (arith, h.0, Ordered-le x.stored its t h.1)

  pub Ordered-weaken :
      (from to : ℕ) (its : List (Item K V)) (t : ℕ)
      → from ≤ to
      → Ordered to its t
      → Ordered from its t
  Ordered-weaken from to [] t l h = omega (arith, l, h)
  Ordered-weaken from to (x ∷ its) t l h = (omega (arith, l, h.0), h.1)

  pub Ordered-later :
      (from : ℕ) (its : List (Item K V)) (t u : ℕ) → t ≤ u → Ordered from its t → Ordered from its u
  Ordered-later from [] t u l h = omega (arith, l, h)
  Ordered-later from (x ∷ its) t u l h = (h.0, Ordered-later x.stored its t u l h.1)

  pub Ordered-append :
      (from : ℕ) (its : List (Item K V)) (new : Item K V)
      → Ordered from its new.stored
      → Ordered from (its ++ new ∷ []) new.stored
  Ordered-append from [] new h = (h, omega arith)
  Ordered-append from (x ∷ its) new h = (h.0, Ordered-append x.stored its new h.1)

  pub Ordered-delete :
      (p : Item K V → Bool) (from : ℕ) (its : List (Item K V)) (t : ℕ)
      → Ordered from its t
      → Ordered from (delete_where p its) t
  unfolding delete_where
  Ordered-delete p from [] t h = h
  Ordered-delete p from (x ∷ its) t h = elim (Bool-cases (p x)) [
    | inl e ↦ rw e (
        Ordered-weaken from x.stored (delete_where p its) t h.0
          (Ordered-delete p x.stored its t h.1))
    | inr e ↦ rw e (h.0, Ordered-delete p x.stored its t h.1)
  ]

  -- Behind an entry that is live, every entry is live.
  none_expired :
      (ttl now from : ℕ) (its : List (Item K V)) (t : ℕ)
      → Ordered from its t
      → now < from + ttl
      → delete_where (expired_at ttl now) its ≡ its
  unfolding delete_where
  none_expired ttl now from [] t h l = refl
  none_expired ttl now from (x ∷ its) t h l =
      let live : leb (x.stored + ttl) now ≡ false = ground (arith, h.0, l) in
      rw live (ap (λ r. x ∷ r) (none_expired ttl now x.stored its t h.1 (omega (arith, h.0, l))))

  -- To drop the expired entries from the front is to scan the whole cache for them.
  pub drop_expired-scan :
      (ttl now from : ℕ) (its : List (Item K V)) (t : ℕ)
      → Ordered from its t
      → drop_expired ttl now its ≡ delete_where (expired_at ttl now) its
  unfolding drop_expired delete_where
  drop_expired-scan ttl now from [] t h = refl
  drop_expired-scan ttl now from (x ∷ its) t h = elim (Bool-cases (expired_at ttl now x)) [
    | inl e ↦ rw e (drop_expired-scan ttl now x.stored its t h.1)
    | inr e ↦
        rw e (ap (λ r. x ∷ r) (sym (none_expired ttl now x.stored its t h.1 (ground (arith, e)))))
  ]

  -- The room that Put makes: an entry that has expired makes room, and where there is none, the
  -- oldest entry goes.
  pub make_room_scan :
      (now from : ℕ) (c : Cache K V) (t : ℕ)
      → length c.items ≤ c.capacity
      → Ordered from c.items t
      → make_room now c ≡ (
          if ltb (length c.items) c.capacity
          then c.items
          else if exists_where (expired_at c.ttl now) c.items
          then delete_where (expired_at c.ttl now) c.items
          else drop_front c.items)
  unfolding make_room
  make_room_scan now from c t full h =
      let scan = drop_expired-scan c.ttl now from c.items t h in
      let p : Item K V → Bool = expired_at c.ttl now in
      elim (Bool-cases (exists_where p c.items)) [
        | inl e ↦ rw scan (
            ground
              (arith, e, length-delete_where p c.items, exists_where-counted p c.items e, full))
        | inr e ↦ rw (scan, delete_where-none p c.items e) (ground (arith, e, full))
      ]

  drop_front-Ordered :
      (its : List (Item K V)) (t : ℕ) → Ordered 0 its t → Ordered 0 (drop_front its) t
  unfolding drop_front
  drop_front-Ordered [] t h = h
  drop_front-Ordered (x ∷ its) t h = Ordered-weaken 0 x.stored its t (omega arith) h.1

  drop_expired-Ordered :
      (ttl now : ℕ) (its : List (Item K V)) (t : ℕ)
      → Ordered 0 its t
      → Ordered 0 (drop_expired ttl now its) t
  drop_expired-Ordered ttl now its t h =
      rw (drop_expired-scan ttl now 0 its t h) (Ordered-delete (expired_at ttl now) 0 its t h)

  pub make_room-Ordered :
      (now : ℕ) (c : Cache K V) (t : ℕ) → Ordered 0 c.items t → Ordered 0 (make_room now c) t
  unfolding make_room
  make_room-Ordered now c t h = ground (
    arith,
    h,
    drop_expired-Ordered c.ttl now c.items t h,
    drop_front-Ordered (drop_expired c.ttl now c.items) t,
  )
