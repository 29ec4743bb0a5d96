-- ===== src/Watcher/Retrying.antt =====
-- internal/oomwatch/watcher.go: when an owner chain that could not be read is read again.
use k8s_sustain.Prelude.{
  ℕ, zero, suc, ◌+◌, ◌-◌, ◌*◌, ◌≤◌, ◌<◌, ◌≡◌, ◌⊎◌, ltb, List, [], ◌∷◌, if◌then◌else◌,
}
use k8s_sustain.Prelude.Int.{ℤ, pos, negsuc, ◌-ℤ◌, leb_ℤ, max_ℤ, min_ℤ, int64}
use k8s_sustain.Prelude.Time.{Time, after, sub, second, zero_time}
use k8s_sustain.OomWatch.Cache.{default_ttl}
use k8s_sustain.Watcher.{OomKill}

abbrev pub min_owner_retry : ℤ
min_owner_retry = pos (5 * second)

abbrev pub newer_kill : OomKill → Time → Time
newer_kill k newest = if after k.terminated_at newest then k.terminated_at else newest

unfoldable pub newest_of : List OomKill → Time → Time
newest_of [] newest = newest
newest_of (k ∷ kills) newest = newest_of kills (newer_kill k newest)

-- `cmp.Or(w.Window, defaultTTL)`
abbrev pub window_or_default : ℤ → ℤ
window_or_default (pos zero) = default_ttl
window_or_default (pos (suc n)) = pos (suc n)
window_or_default (negsuc n) = negsuc n

unfoldable pub retry_at_age : ℤ → ℤ → ℤ
retry_at_age window age =
    if leb_ℤ window age then pos 0 else min_ℤ (max_ℤ age min_owner_retry) (int64 (window -ℤ age))

unfoldable pub owner_retry_after : ℤ → Time → List OomKill → ℤ
unfolding retry_at_age newest_of
owner_retry_after window now kills =
    retry_at_age (window_or_default window) (sub now (newest_of kills zero_time))

-- The delay that ends inside the window: at least the age, or all that is left.
abbrev pub IsBackedOff : ℕ → ℕ → ℕ → Type 0
IsBackedOff window age r = (0 < r) × (age + r ≤ window) × ((age ≤ r) ⊎ (age + r ≡ window))

abbrev at_least_minimum : ℕ → ℕ
at_least_minimum age = if ltb age (5 * second) then 5 * second else age

abbrev within : ℕ → ℕ → ℕ
within left r = if ltb left r then left else r

-- No retry once the newest kill is as old as the window, and before that one inside it.
abbrev pub IsTimely : (window newest now : ℕ) → ℤ → Type 0
IsTimely window newest now retry =
    ((newest + window ≤ now) × (retry ≡ pos 0))
    ⊎ ((now < newest + window) × ((r : ℕ) × (retry ≡ pos r) × IsBackedOff window (now - newest) r))
