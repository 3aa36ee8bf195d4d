-- ===== src/Tests/Caches.antt =====
-- A cache of numbered items, each with a mark for unflushed updates, with a capacity of two.
use h_flat.Base.{
  ℕ, ◌≡◌, refl, Bool, true, false, [], ◌∷◌, some, insert, nat_eq, lookup, ok, fault, undefined,
  arith,
}
use h_flat.LruCache.Defs.{
  Entry, LruCache, Got, new_cache, get, add, block, revalidate, invalidate, count_key, erase_key,
}
use h_flat.LruCache.Invariant.{IsValid, new_cache-IsValid}
use h_flat.LruCache.Adding.{add-IsValid, add_dirty, add_front}
use h_flat.LruCache.Reach.{Reach, here, next, added, Reach-IsValid}

abbrev Item : Type 0
Item = ℕ × Bool

abbrev key_of : Item → ℕ
key_of x = x.0

abbrev is_dirty : Item → Bool
is_dirty x = x.1

abbrev Cache : Type 0
Cache = LruCache ℕ Item

abbrev at : ℕ → Item → Entry Item
at now x = record { item = x; time = now }

abbrev empty : Cache
empty = record {
  cache = [];
  lookup_map = [];
  blocked_keys = [];
  expiration_time = 100;
  capacity = 2;
  next_node = 0;
}

empty-IsValid : IsValid key_of empty
unfolding new_cache
empty-IsValid = new_cache-IsValid key_of is_dirty 1 100 2

-- One dirty entry, and a clean one added to it: the cache is full.
abbrev one : Cache
one = record empty { cache = (0, at 10 (5, true)) ∷ []; lookup_map = (5, 0) ∷ []; next_node = 1 }

abbrev two : Cache
two = record empty {
  cache = (1, at 11 (6, false)) ∷ (0, at 10 (5, true)) ∷ [];
  lookup_map = (5, 0) ∷ (6, 1) ∷ [];
  next_node = 2;
}

filled_once : add key_of is_dirty 1 5 (5, true) 10 empty ≡ ok (true, one)
unfolding add lookup insert erase_key
filled_once = refl

filled_twice : add key_of is_dirty 1 6 (6, false) 11 one ≡ ok (true, two)
unfolding add lookup insert erase_key
filled_twice = refl

one-IsValid : IsValid key_of one
one-IsValid =
    add-IsValid key_of is_dirty 1 5 (5, true) 10 empty one true refl empty-IsValid filled_once

add-IsValid_example : IsValid key_of two
add-IsValid_example =
    add-IsValid key_of is_dirty 1 6 (6, false) 11 one two true refl one-IsValid filled_twice

two-IsValid : IsValid key_of two
two-IsValid =
    add-IsValid key_of is_dirty 1 6 (6, false) 11 one two true refl one-IsValid filled_twice

add_dirty_example : lookup 0 two.cache ≡ some (at 10 (5, true))
unfolding lookup
add_dirty_example =
    add_dirty key_of is_dirty 1 6 (6, false) 11 one two true 0 (at 10 (5, true)) one-IsValid
      filled_twice refl refl

add_front_example : add key_of is_dirty 1 7 (7, false) 12 two ≡ fault undefined
unfolding lookup
add_front_example =
    add_front key_of is_dirty 1 7 (7, false) 12 1 (at 11 (6, false)) ((0, at 10 (5, true)) ∷ []) two
      refl refl (refl, tt) (omega arith) refl

filled : Reach key_of is_dirty 1 (new_cache 100 2) two
unfolding new_cache
filled =
    next (next here (added (5, true) 10 true filled_once)) (added (6, false) 11 true filled_twice)

Reach-IsValid_example :
    IsValid key_of two
    × ((k : ℕ) (now : ℕ)
        → (g : Got Item) × (c' : Cache) × (get key_of is_dirty 1 k now two ≡ ok (g, c')))
    × ((k : ℕ) → (c' : Cache) × (invalidate key_of is_dirty 1 k two ≡ ok c'))
    × ((k : ℕ) (now : ℕ) → (c' : Cache) × (revalidate key_of is_dirty 1 k now two ≡ ok c'))
Reach-IsValid_example = Reach-IsValid key_of is_dirty 1 100 2 two filled

-- Two clean entries: the older one makes room.
abbrev clean_one : Cache
clean_one = record empty {
  cache = (0, at 10 (5, false)) ∷ [];
  lookup_map = (5, 0) ∷ [];
  next_node = 1;
}

abbrev clean_two : Cache
clean_two = record two { cache = (1, at 11 (6, false)) ∷ (0, at 10 (5, false)) ∷ [] }

clean_once : add key_of is_dirty 1 5 (5, false) 10 empty ≡ ok (true, clean_one)
unfolding add lookup insert erase_key
clean_once = refl

clean_twice : add key_of is_dirty 1 6 (6, false) 11 clean_one ≡ ok (true, clean_two)
unfolding add lookup insert erase_key
clean_twice = refl

clean_two-IsValid : IsValid key_of clean_two
clean_two-IsValid =
    add-IsValid key_of is_dirty 1 6 (6, false) 11 clean_one clean_two true refl
      (add-IsValid key_of is_dirty 1 5 (5, false) 10 empty clean_one true refl empty-IsValid
        clean_once)
      clean_twice

abbrev blocked : Cache
blocked = record empty { blocked_keys = 5 ∷ [] }

block_five : block key_of is_dirty 1 5 empty ≡ (true, blocked)
unfolding block count_key
block_five = refl
