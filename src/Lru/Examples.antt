-- ===== src/Lru/Examples.antt =====
-- A cache of one entry.
use k8s_sustain.Prelude.{ℕ, ◌*◌, [], ◌≡◌, refl, none, some, String, String-discrete, if◌then◌else◌}
use k8s_sustain.Prelude.Int.{pos}
use k8s_sustain.Prelude.Time.{minute, second}
use k8s_sustain.Lru.{Entry, Lru, new_lru, is_older_than, get, last_good_within, set}
use k8s_sustain.Lru.Laws
use k8s_sustain.Lru.Laws.{Reach, fresh, stored}

abbrev empty_cache : Lru String ℕ
empty_cache = record { max_entries = 1; ttl = pos (5 * minute); order = [] }

abbrev empty_cache-Reach : Reach String-discrete empty_cache
unfolding new_lru
empty_cache-Reach = fresh 1 (pos (5 * minute)) empty_cache refl

abbrev cache : Lru String ℕ
cache = set String-discrete minute "web" 2 (set String-discrete second "cart" 1 empty_cache)

abbrev cache-Reach : Reach String-discrete cache
cache-Reach = stored minute "web" 2 (stored second "cart" 1 empty_cache-Reach)

abbrev cart_entry : Entry ℕ
cart_entry = record { value = 3; stored_at = 2 * minute }

get-set_example :
    ((get String-discrete (3 * minute) "cart" (set String-discrete (2 * minute) "cart" 3 cache)).1
      ≡ (if is_older_than String-discrete cache.ttl (3 * minute) cart_entry then none else some 3))
    × (last_good_within String-discrete
          (3 * minute)
          "cart"
          (pos minute)
          (set String-discrete (2 * minute) "cart" 3 cache)
        ≡ (if is_older_than String-discrete (pos minute) (3 * minute) cart_entry
            then none
            else some 3))
get-set_example =
    Laws.get-set String-discrete cache (2 * minute) (3 * minute) "cart" 3 (pos minute) cache-Reach
