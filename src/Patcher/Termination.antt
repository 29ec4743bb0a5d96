-- ===== src/Patcher/Termination.antt =====
-- The wait for a replacement ends (internal/workload/patcher.go), on a clock that its pauses move.
use k8s_sustain.Prelude.{
  ℕ, zero, suc, ◌+◌, ◌*◌, ◌/◌, ◌≤◌, ◌<◌, ◌≡◌, ◌≢◌, Bool, true, Option, none, some, List, [], ◌∷◌,
  String, arith, ◌==◌, ◌&&◌, Bool-cases, Option-cases, inl, inr,
}
use native.Mathlib.Nat.{lt-div-mul-add}
use k8s_sustain.Prelude.Int.{ℤ, pos, pos_part}
use k8s_sustain.Prelude.Time.{Time, add, after}
use k8s_sustain.Patcher.Cluster.{
  granted, denied, View, Failure, unfinished, Patcher, PatcherOption, with_ready_poll_interval,
  with_ready_timeout, set_option, set_options, new_patcher,
}
use k8s_sustain.Patcher.Waiting.{
  Scan, crashes, scanned, Poll, ended, polls_on, scan, poll, by_scan, paused, timed, listed,
  continue, wait_until, wait_for_replacement, poll_fuel,
}

-- A patcher's interval and timeout are at least one nanosecond.
pub IsTimed : Patcher → Type 0
IsTimed p = (0 < pos_part p.ready_poll_interval) × (0 < pos_part p.ready_timeout)

set_option-IsTimed : (o : PatcherOption) (p : Patcher) → IsTimed p → IsTimed (set_option o p)
unfolding IsTimed set_option
set_option-IsTimed (with_ready_poll_interval (pos d)) p h = ground arith
set_option-IsTimed (with_ready_timeout (pos d)) p h = ground arith
set_option-IsTimed (with_ready_poll_interval (ℤ.negsuc d)) p h = ground arith
set_option-IsTimed (with_ready_timeout (ℤ.negsuc d)) p h = ground arith

set_options-IsTimed :
    (os : List PatcherOption) (p : Patcher) → IsTimed p → IsTimed (set_options os p)
unfolding set_options
set_options-IsTimed [] p h = h
set_options-IsTimed (o ∷ os) p h =
    set_options-IsTimed os (set_option o p) (set_option-IsTimed o p h)

-- Whatever options a patcher is made with, its poll interval and its timeout are positive.
pub new_patcher-IsTimed :
    (in_place : Bool) (opts : List PatcherOption) → IsTimed (new_patcher in_place opts)
unfolding new_patcher IsTimed
new_patcher-IsTimed in_place opts = set_options-IsTimed opts _ (omega arith, omega arith)

-- A clock that the state carries: it is what `now` reads, no call of the wait turns it back, and a
-- pause that no context ends moves it by what it waits.
pub record Clock {S L Q : Type 0} (api : View S L Q) : Type 0 where
  pub time : S → ℕ
  pub now-time : (s : S) → (api.now s).1 ≡ time (api.now s).0
  pub time-now : (s : S) → time s ≤ time (api.now s).0
  pub time-list_pods : (ns : String) (l : Option L) (s : S) → time s ≤ time (api.list_pods ns l s).0
  pub time-pause :
      (d : ℤ) (s : S) → (api.pause d s).1 ≡ none → time s + pos_part d ≤ time (api.pause d s).0

pub IsFinished : Option Failure → Type 0
IsFinished result = result ≢ some unfinished

fewer : (n t t' deadline d : ℕ) → deadline < t + suc n * d → t + d ≤ t' → deadline < t' + n * d
fewer n t t' deadline d h k = ground arith

enough : (a d t deadline : ℕ) → 0 < d → deadline ≤ t + a → deadline < t + suc (a / d) * d
enough a d t deadline h k = ground (arith, lt-div-mul-add {a = a} {b = d} h)

module _ {S L Q : Type 0} (api : View S L Q) (p : Patcher) (clock : Clock api) where
  open clock use {time}

  -- A poll that goes on has not passed the deadline, and moves the clock by an interval.
  abbrev Moves : Time → S → S × Poll → Type 0
  Moves deadline s (s', ended result) = IsFinished result
  Moves deadline s (s', polls_on) =
      (time s ≤ deadline) × (time s + pos_part p.ready_poll_interval ≤ time s')

  paused-Moves :
      (deadline : Time) (s s0 : S)
      → time s0 ≤ time s
      → time s ≤ deadline
      → Moves deadline s0 (paused api p (api.pause p.ready_poll_interval s))
  unfolding IsFinished
  paused-Moves deadline s s0 h k = elim (Option-cases (api.pause p.ready_poll_interval s).1) [
    | inl e ↦
        let moved = clock.time-pause p.ready_poll_interval s e in
        rw e (omega (arith, h, k), omega (arith, h, moved))
    | inr (w, e) ↦ rw e (λ q. cc)
  ]

  timed-Moves :
      (deadline : Time) (gone : Bool) (waiting : ℕ) (s s0 : S)
      → time s0 ≤ time s
      → Moves deadline s0 (timed api p deadline gone waiting (api.now s))
  unfolding IsFinished
  timed-Moves deadline gone waiting s s0 h =
      let s' = (api.now s).0 in
      let later = clock.time-now s in
      elim (Bool-cases (after (api.now s).1 deadline)) [
        | inl e ↦ rw e (λ q. cc)
        | inr e ↦ rw e (
            paused-Moves deadline s' s0 (omega (arith, h, later))
              (ground (arith, e, clock.now-time s)))
      ]

  by_scan-Moves :
      (deadline : Time) (found : Scan) (s s0 : S)
      → time s0 ≤ time s
      → Moves deadline s0 (by_scan api p deadline found s)
  unfolding IsFinished
  by_scan-Moves deadline (crashes name) s s0 h = λ q. cc
  by_scan-Moves deadline (scanned gone waiting) s s0 h = elim (Bool-cases (gone && waiting == 0)) [
    | inl e ↦ rw e (λ q. cc)
    | inr e ↦ rw e (timed-Moves deadline gone waiting s s0 h)
  ]

  poll-Moves :
      (ns : String) (l : Option L) (name uid : String) (deadline : Time) (s : S)
      → Moves deadline s (poll api p ns l name uid deadline s)
  unfolding poll IsFinished
  poll-Moves ns l name uid deadline s =
      let s' = (api.list_pods ns l s).0 in
      let later = clock.time-list_pods ns l s in
      elim (api.list_pods ns l s).1
        as (λ r. Moves deadline s (listed api p name uid deadline (s', r))) [
          | granted pods ↦ by_scan-Moves deadline (scan name uid pods true 0) s' s later
          | denied e ↦ λ q. cc
        ]

  continue-IsFinished :
      (deadline : Time) (s : S) (polled : S × Poll) (k : S → S × Option Failure)
      → Moves deadline s polled
      → ((s' : S)
          → time s ≤ deadline
          → time s + pos_part p.ready_poll_interval ≤ time s'
          → IsFinished (k s').1)
      → IsFinished (continue polled k).1
  continue-IsFinished deadline s (s', ended result) k m f = m
  continue-IsFinished deadline s (s', polls_on) k (m, n) f = f s' m n

  -- With an interval for each poll left, the deadline passes before the fuel ends.
  wait_until-IsFinished :
      (fuel : ℕ) (ns : String) (l : Option L) (name uid : String) (deadline : Time) (s : S)
      → deadline < time s + fuel * pos_part p.ready_poll_interval
      → IsFinished (wait_until api p (suc fuel) ns l name uid deadline s).1
  unfolding wait_until
  wait_until-IsFinished zero ns l name uid deadline s h =
      continue-IsFinished deadline s (poll api p ns l name uid deadline s) _
        (poll-Moves ns l name uid deadline s) (λ s' late moved. absurd (omega (arith, h, late)))
  wait_until-IsFinished (suc n) ns l name uid deadline s h =
      continue-IsFinished deadline s (poll api p ns l name uid deadline s) _
        (poll-Moves ns l name uid deadline s)
        (λ s' late moved.
          wait_until-IsFinished n ns l name uid deadline s'
            (fewer n (time s) (time s') deadline (pos_part p.ready_poll_interval) h moved))

  -- The wait for a replacement always ends: with the fuel that its timeout and its poll interval
  -- set, it never runs out of it, whatever the cluster lists.
  pub wait_for_replacement-IsFinished :
      (ns : String) (l : Option L) (name uid : String) (s : S)
      → IsTimed p
      → IsFinished (wait_for_replacement api p ns l name uid s).1
  unfolding wait_for_replacement poll_fuel add IsTimed
  wait_for_replacement-IsFinished ns l name uid s timed_p =
      wait_until-IsFinished (suc (pos_part p.ready_timeout / pos_part p.ready_poll_interval)) ns l
        name uid (add (api.now s).1 p.ready_timeout) (api.now s).0
        (enough (pos_part p.ready_timeout) (pos_part p.ready_poll_interval) _ _ timed_p.0
          (omega (arith, clock.now-time s)))
