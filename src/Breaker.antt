-- ===== src/Breaker.antt =====
-- internal/prometheus/breaker.go: the circuit breaker of the Prometheus client. Each method is one
-- step under its mutex; the clock's instant is an argument. A nil breaker behaves as a disabled one.
pub mod Laws
mod Examples
use k8s_sustain.Prelude.{Bool, true, false, ◌&&◌, not, List, [], ◌∷◌, if◌then◌else◌}
use k8s_sustain.Prelude.Int.{ℤ, pos, ◌+ℤ◌, leb_ℤ, int64}
use k8s_sustain.Prelude.Time.{Time, zero_time, is_zero, before, add}

pub record Breaker : Type 0 where
  pub max_failures : ℤ
  pub cooldown : ℤ
  pub failures : ℤ
  -- the zero time while the circuit is closed
  pub open_until : Time

unfoldable pub new_breaker : ℤ → ℤ → Breaker
new_breaker max_failures cooldown = record {
  max_failures = max_failures;
  cooldown = cooldown;
  failures = pos 0;
  open_until = zero_time;
}

abbrev pub is_disabled : Breaker → Bool
is_disabled b = leb_ℤ b.max_failures (pos 0)

-- Whether the call may proceed, and whether it is the half-open probe.
unfoldable pub allow : Time → Breaker → Breaker × (Bool × Bool)
allow now b =
    if◌then◌else◌ {A = Breaker × (Bool × Bool)} (is_disabled b) (b, (true, false))
      (if◌then◌else◌ {A = Breaker × (Bool × Bool)} (is_zero b.open_until) (b, (true, false))
        (if◌then◌else◌ {A = Breaker × (Bool × Bool)} (before now b.open_until) (b, (false, false))
          (record b { open_until = add now b.cooldown }, (true, true))))

unfoldable pub is_open : Time → Breaker → Bool
is_open now b =
    if is_disabled b then false else (not (is_zero b.open_until) && before now b.open_until)

unfoldable pub success : Breaker → Breaker
success b = if is_disabled b then b else record b { failures = pos 0; open_until = zero_time }

-- The counter is an int.
unfoldable pub failure : Time → Breaker → Breaker
failure now b =
    let failures = int64 (b.failures +ℤ pos 1) in
    if is_disabled b then b else record b {
      failures = failures;
      open_until = if leb_ℤ b.max_failures failures then add now b.cooldown else b.open_until;
    }

-- What the client tells the breaker, in the order the mutex lets it in.
pub data Event : Type 0 where
  asked failed : Time → Event
  succeeded : Event

unfoldable pub step : Event → Breaker → Breaker
unfolding allow success failure
step (asked now) b = (allow now b).0
step (failed now) b = failure now b
step succeeded b = success b

unfoldable pub run : List Event → Breaker → Breaker
unfolding step
run [] b = b
run (e ∷ es) b = run es (step e b)
