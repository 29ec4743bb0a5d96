-- ===== src/Prelude/Time.antt =====
-- Go's `time`: an instant is its nanoseconds since the zero time, which is year 1, and a Duration
-- is an int64 of nanoseconds.
use k8s_sustain.Prelude.{
  ℕ, ◌+◌, ◌-◌, ◌*◌, ◌/◌, ◌<◌, ◌≡◌, Bool, true, ◌↔◌, arith, ltb, ◌==◌, if◌then◌else◌,
}
use k8s_sustain.Prelude.Int.{ℤ, pos, negsuc, pos_part, neg_part, sub_ℕ, ltb_ℤ, max_int64}

abbrev pub Time : Type 0
Time = ℕ

abbrev pub zero_time : Time
zero_time = 0

abbrev pub is_zero : Time → Bool
is_zero t = t == 0

abbrev pub before : Time → Time → Bool
before t u = ltb t u

abbrev pub after : Time → Time → Bool
after t u = ltb u t

-- No instant of the program lies before the zero time.
unfoldable pub add : Time → ℤ → Time
add t d = t + pos_part d - neg_part d

-- `t.Sub(u)` saturates at the ends of int64.
unfoldable pub sub : Time → Time → ℤ
sub t u =
    let d = sub_ℕ t u in
    if ltb_ℤ (pos max_int64) d
    then pos max_int64
    else if ltb_ℤ d (negsuc max_int64)
    then negsuc max_int64
    else d

-- More than `d` has passed exactly when `u` comes after the instant plus `d`.
pub sub-lt_iff :
    (t u : Time) (d : ℕ) → d < max_int64 → (ltb_ℤ (pos d) (sub u t) ≡ true) ↔ (t + d < u)
unfolding sub
sub-lt_iff t u d h = ground arith

abbrev pub second : ℕ
second = 1_000_000_000

abbrev pub minute : ℕ
minute = 60_000_000_000

abbrev pub hour : ℕ
hour = 3_600_000_000_000

-- `Rfc3339Copy`: the instant at the precision of the API, a second.
unfoldable pub rfc3339_copy : Time → Time
rfc3339_copy t = t / second * second
