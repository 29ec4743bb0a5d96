-- ===== src/Breaker/Laws.antt =====
-- When the circuit of internal/prometheus/breaker.go is open, and for whom.
use k8s_sustain.Prelude.{
  ℕ, suc, not, ◌&&◌, ◌+◌, ◌<◌, ◌≡◌, refl, ap, ◌∙◌, true, false, List, [], ◌∷◌, arith, ltb, length,
}
use k8s_sustain.Prelude.Int.{pos, ◌+ℤ◌, int64, max_int64, int64_small}
use k8s_sustain.Prelude.Time.{Time, is_zero, add}
use k8s_sustain.Breaker.{
  Breaker, new_breaker, allow, is_open, success, failure, Event, asked, failed, succeeded, run,
}

-- The failures since the last success.
pub consecutive : ℕ → List Event → ℕ
consecutive n [] = n
consecutive n (asked now ∷ es) = consecutive n es
consecutive n (failed now ∷ es) = consecutive (suc n) es
consecutive n (succeeded ∷ es) = consecutive 0 es

-- The breaker counts so many failures, and its circuit is closed while they are fewer than its limit.
abbrev pub Counts : ℕ → ℕ → ℕ → Breaker → Type 0
Counts m c n b =
    (b.max_failures ≡ pos m)
    × (b.cooldown ≡ pos c)
    × (b.failures ≡ pos n)
    × (is_zero b.open_until ≡ ltb n m)

pos_succ : (n : ℕ) → (pos n +ℤ pos 1) ≡ pos (suc n)
unfolding ◌+ℤ◌
pos_succ n = ground arith

asked-Counts :
    (m c n : ℕ) (now : Time) (b : Breaker)
    → 0 < m
    → 0 < c
    → Counts m c n b
    → Counts m c n (allow now b).0
unfolding allow add
asked-Counts m c n now b hm hc (e, f, g, h) = ground (arith, e, f, g, h)

succeeded-Counts : (m c n : ℕ) (b : Breaker) → 0 < m → Counts m c n b → Counts m c 0 (success b)
unfolding success
succeeded-Counts m c n b hm (e, f, g, h) = ground (arith, e, f, g, h)

failed-Counts :
    (m c n : ℕ) (now : Time) (b : Breaker)
    → 0 < m
    → 0 < c
    → n < max_int64
    → Counts m c n b
    → Counts m c (suc n) (failure now b)
unfolding failure add
failed-Counts m c n now b hm hc small (e, f, g, h) =
    let counted : int64 (b.failures +ℤ pos 1) ≡ pos (suc n) =
      ap (λ k. int64 (k +ℤ pos 1)) g
      ∙ (ap int64 (pos_succ n) ∙ int64_small (suc n) (omega arith)) in
    ground (arith, e, f, g, h, counted)

run-Counts :
    (es : List Event) (m c n : ℕ) (b : Breaker)
    → 0 < m
    → 0 < c
    → n + length es < max_int64
    → Counts m c n b
    → Counts m c (consecutive n es) (run es b)
unfolding run consecutive
run-Counts [] m c n b hm hc small k = k
run-Counts (asked now ∷ es) m c n b hm hc small k =
    run-Counts es m c n _ hm hc (omega arith) (asked-Counts m c n now b hm hc k)
run-Counts (failed now ∷ es) m c n b hm hc small k =
    run-Counts es m c (suc n) _ hm hc (omega arith)
      (failed-Counts m c n now b hm hc (omega arith) k)
run-Counts (succeeded ∷ es) m c n b hm hc small k =
    run-Counts es m c 0 _ hm hc (omega arith) (succeeded-Counts m c n b hm k)

-- After any events from a new breaker, with a limit and a cooldown above zero and fewer events than
-- an int64 counts, the circuit is closed exactly while the failures since the last success are
-- fewer than the limit; asking changes neither.
pub run-consecutive :
    (es : List Event) (m c : ℕ)
    → 0 < m
    → 0 < c
    → length es < max_int64
    → is_zero (run es (new_breaker (pos m) (pos c))).open_until ≡ ltb (consecutive 0 es) m
unfolding new_breaker
run-consecutive es m c hm hc small =
    (run-Counts es m c 0 (new_breaker (pos m) (pos c)) hm hc (omega arith)
      (refl, refl, refl, ground arith)).3

-- Once a caller holds the half-open probe, no other is let in, and the circuit reads as open, until
-- the cooldown, which is above zero, has passed again.
pub allow-allow :
    (b : Breaker) (now later c : ℕ)
    → b.cooldown ≡ pos c
    → 0 < c
    → (allow now b).1 ≡ (true, true)
    → later < now + c
    → ((allow later (allow now b).0).1 ≡ (false, false)) × (is_open later (allow now b).0 ≡ true)
unfolding allow is_open add
allow-allow b now later c e hc probe soon = ground (arith, e, probe)

-- A breaker with a limit above zero lets a call pass, and reads as closed, exactly when its
-- circuit is closed or the cooldown is over; only in the second case is the call the probe.
pub allow_iff :
    (b : Breaker) (now m : ℕ)
    → b.max_failures ≡ pos m
    → 0 < m
    → ((allow now b).1.0 ≡ not (is_open now b))
      × ((allow now b).1.1 ≡ (not (is_zero b.open_until) && not (is_open now b)))
unfolding allow is_open
allow_iff b now m e hm = ground (arith, e)
