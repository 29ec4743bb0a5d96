-- ===== src/OomWatch/Examples.antt =====
-- A cache of at most two entries, with the kills of one Deployment's containers.
use k8s_sustain.Prelude.{
  ℕ, ◌*◌, ◌≤◌, ◌<◌, ◌≡◌, ◌≢◌, ◌⊎◌, refl, Bool, true, false, not, Option, none, some, List, [], ◌∷◌,
  lookup, arith, max, length, All, if◌then◌else◌, ite, String-discrete, Distinct, pair_discrete,
  insert, is_some,
}
use k8s_sustain.Prelude.Int.{pos}
use k8s_sustain.Prelude.Time.{Time, minute}
use k8s_sustain.OomWatch.{Identity, Key, key_discrete, OomRecord}
use k8s_sustain.OomWatch.Cache.{Cache, record_kill, new_cache_with_limit, same_kill}
use k8s_sustain.OomWatch.Index.{indexed}
use k8s_sustain.OomWatch.Recording
use k8s_sustain.OomWatch.Recording.{Recorded, Kept}
use k8s_sustain.OomWatch.Sound
use k8s_sustain.OomWatch.Sound.{IsSound}

abbrev shop : Identity
shop = ("shop", ("Deployment", "cart"))

abbrev app_key : Key
app_key = (shop, "app")

abbrev proxy_key : Key
proxy_key = (shop, "proxy")

abbrev log_key : Key
log_key = (shop, "log")

abbrev kill_at : Time → ℕ → ℕ → OomRecord
kill_at t restarts limit = record {
  container = "app";
  policy_name = "default";
  observed_at = t;
  terminated_at = t;
  restart_count = restarts;
  pod_name = "cart-1";
  pod_uid = "u1";
  oom_limit_bytes = limit;
}

unfoldable empty_cache : Cache
unfolding new_cache_with_limit
empty_cache = new_cache_with_limit (pos (30 * minute)) (pos 2)

unfoldable one : Cache
unfolding record_kill empty_cache
one = (record_kill app_key (kill_at 1_000 1 128) empty_cache).0

unfoldable two : Cache
unfolding record_kill one
two = (record_kill proxy_key (kill_at 2_000 1 64) one).0

empty_cache-IsSound : IsSound empty_cache
unfolding empty_cache Distinct indexed lookup
empty_cache-IsSound = record {
  some_room = omega arith;
  entries_fit = omega arith;
  resolved_fit = omega arith;
  entries_distinct = tt;
  resolved_distinct = tt;
  in_sync = λ q. refl;
}

one-IsSound : IsSound one
unfolding one
one-IsSound =
    Sound.record_kill-IsSound app_key (kill_at 1_000 1 128) empty_cache empty_cache-IsSound

two-IsSound : IsSound two
unfolding two
two-IsSound = Sound.record_kill-IsSound proxy_key (kill_at 2_000 1 64) one one-IsSound

app_entry : lookup key_discrete app_key two.entries ≡ some (kill_at 1_000 1 128)
unfolding two lookup insert pair_discrete String-discrete
app_entry = refl

-- The third key evicts the oldest entry.
evicted :
    lookup key_discrete app_key (record_kill log_key (kill_at 3_000 1 32) two).0.entries ≡ none
unfolding record_kill two lookup insert pair_discrete String-discrete k8s_sustain.Prelude.delete
evicted = refl

record_kill-Recorded_example :
    Recorded app_key
      (kill_at 900 2 256)
      (kill_at 1_000 1 128)
      (same_kill (kill_at 1_000 1 128) (kill_at 900 2 256))
      (record_kill app_key (kill_at 900 2 256) two)
record_kill-Recorded_example =
    Recording.record_kill-Recorded app_key (kill_at 900 2 256) (kill_at 1_000 1 128) two app_entry

ne_of_no : {P : Type 0} (d : Dec P) → ite d true false ≡ false → ¬ P
ne_of_no (yes p) h = cc
ne_of_no (no n) h = n

app≢log : app_key ≢ log_key
unfolding String-discrete pair_discrete
app≢log = ne_of_no (key_discrete app_key log_key) refl

record_kill-Kept_example :
    Kept app_key (kill_at 1_000 1 128) two (record_kill log_key (kill_at 3_000 1 32) two).0
record_kill-Kept_example =
    Recording.record_kill-Kept log_key app_key (kill_at 3_000 1 32) (kill_at 1_000 1 128) two
      two-IsSound app≢log app_entry
