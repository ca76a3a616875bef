-- ===== src/Ttl/Tests.antt =====
-- The cache at concrete calls, and the theorems at concrete inputs.
use agent_fox.Jobs.Model.{pos}
use agent_fox.Ttl.Behaviour.{get-put_other, use_all_bounded, get-put}
use agent_fox.Prelude.{
  if◌then◌else◌, List, ℕ, ◌≡◌, ◌≤◌, String, ℕ_Eq, ◌∷◌, [], refl, ltb, ◌+◌, some, none,
}
use agent_fox.Table.{exists_where, count_where, delete_where}
use agent_fox.Ttl.{
  Cache, put, get, len, make_room, Use, drop_expired, drop_front, puts, use_all, has_key, gets,
  new_cache, deletes, pos, expired_at,
}

abbrev small : Cache ℕ String
small = record {
  capacity = 2;
  ttl = 10;
  items =
      record { key = 1; value = "one"; stored = 0 }
      ∷ record { key = 2; value = "two"; stored = 4 }
      ∷ [];
}

-- The third entry makes room for itself: the one that has expired goes.
put_full :
    (put 12 3 "three" small).items
    ≡ record { key = 2; value = "two"; stored = 4 }
      ∷ record { key = 3; value = "three"; stored = 12 }
      ∷ []
unfolding put make_room drop_expired drop_front exists_where
put_full = refl

get-put_example :
    (get 13 3 (put 12 3 "three" small)).0 ≡ (if ltb 13 (12 + 10) then some "three" else none)
get-put_example = get-put 12 13 3 "three" small

get-put_other_example : (get 9 2 (put 8 1 "uno" small)).0 ≡ (get 9 2 small).0
unfolding exists_where
get-put_other_example = get-put_other 8 9 1 2 "uno" small refl refl

abbrev some_uses : List (Use ℕ String)
some_uses = puts 1 1 "one" ∷ puts 2 2 "two" ∷ gets 9 1 ∷ puts 1 3 "three" ∷ deletes 1 2 ∷ []

abbrev used : Cache ℕ String
used = (use_all (0, new_cache (pos 2) 10) some_uses).1

use_all_bounded_example :
    (len used ≤ used.capacity)
    × ((k : ℕ) → count_where (has_key k) used.items ≤ 1)
    × (make_room 14 used ≡ (
        if ltb (len used) used.capacity
        then used.items
        else if exists_where (expired_at used.ttl 14) used.items
        then delete_where (expired_at used.ttl 14) used.items
        else drop_front used.items))
use_all_bounded_example = use_all_bounded (pos 2) 10 0 14 some_uses
