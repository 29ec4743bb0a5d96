-- ===== src/Patcher/Waiting.antt =====
-- internal/workload/patcher.go: the wait for the replacement of an evicted pod. Its loop runs on
-- fuel that the timeout and the interval set.
use k8s_sustain.Prelude.{
  ℕ, zero, suc, ◌+◌, ◌/◌, Bool, true, false, ◌&&◌, ◌||◌, not, Option, none, some, List, [], ◌∷◌,
  String, ◌==◌, if◌then◌else◌,
}
use k8s_sustain.Prelude.Int.{pos_part}
use k8s_sustain.Prelude.Time.{Time, after, add}
use k8s_sustain.WlrCache.{same_text}
use k8s_sustain.Patcher.Pods.{Pod, has_crash_loop_back_off, is_progressing}
use k8s_sustain.Patcher.Cluster.{
  Answer, granted, denied, View, Failure, crash_looping, not_listed, timed_out, context_done,
  unfinished, Patcher,
}

-- What a listing comes to: a pod that crash-loops, or whether the evicted pod is gone and how many
-- others are pending.
pub data Scan : Type 0 where
  crashes : String → Scan
  scanned : Bool → ℕ → Scan

-- What a poll comes to: the wait's end, or another one.
pub data Poll : Type 0 where
  ended : Option Failure → Poll
  polls_on : Poll

unfoldable pub is_evicted : {Q : Type 0} → String → String → Pod Q → Bool
is_evicted name uid pod =
    (same_text pod.uid uid && not (same_text uid ""))
    || (same_text uid "" && same_text pod.name name)

unfoldable pub scan : {Q : Type 0} → String → String → List (Pod Q) → Bool → ℕ → Scan
unfolding has_crash_loop_back_off is_evicted is_progressing
scan name uid [] gone waiting = scanned gone waiting
scan name uid (pod ∷ pods) gone waiting =
    let rest =
      scan name uid pods (if is_evicted name uid pod then false else gone)
        (if not (is_evicted name uid pod) && is_progressing pod then waiting + 1 else waiting) in
    if has_crash_loop_back_off pod then crashes pod.name else rest

-- Enough polls to pass the deadline, and one more.
unfoldable pub poll_fuel : Patcher → ℕ
poll_fuel p = suc (suc (pos_part p.ready_timeout / pos_part p.ready_poll_interval))

abbrev pub continue : {S : Type 0} → S × Poll → (S → S × Option Failure) → S × Option Failure
continue (s, ended result) k = (s, result)
continue (s, polls_on) k = k s

module _ {S L Q : Type 0} (api : View S L Q) (p : Patcher) where
  abbrev pub paused : S × Option String → S × Poll
  paused (s, none) = (s, polls_on)
  paused (s, some e) = (s, ended (some (context_done e)))

  abbrev pub timed : Time → Bool → ℕ → S × Time → S × Poll
  timed deadline gone waiting (s, now) =
      if after now deadline
      then (s, ended (some (timed_out gone waiting)))
      else paused (api.pause p.ready_poll_interval s)

  abbrev pub by_scan : Time → Scan → S → S × Poll
  by_scan deadline (crashes name) s = (s, ended (some (crash_looping name)))
  by_scan deadline (scanned gone waiting) s =
      if gone && waiting == 0 then (s, ended none) else timed deadline gone waiting (api.now s)

  abbrev pub listed : String → String → Time → S × Answer (List (Pod Q)) → S × Poll
  listed name uid deadline (s, granted pods) = by_scan deadline (scan name uid pods true 0) s
  listed name uid deadline (s, denied e) = (s, ended (some (not_listed e)))

  -- One turn of the loop.
  unfoldable pub poll : String → Option L → String → String → Time → S → S × Poll
  unfolding scan
  poll namespace selector name uid deadline s =
      listed name uid deadline (api.list_pods namespace selector s)

  unfoldable pub wait_until :
      ℕ → String → Option L → String → String → Time → S → S × Option Failure
  unfolding poll
  wait_until zero namespace selector name uid deadline s = (s, some unfinished)
  wait_until (suc n) namespace selector name uid deadline s =
      continue (poll namespace selector name uid deadline s)
        (wait_until n namespace selector name uid deadline)

  unfoldable pub wait_for_replacement : String → Option L → String → String → S → S × Option Failure
  unfolding wait_until poll_fuel
  wait_for_replacement namespace selector name uid s =
      let (s', now) = api.now s in
      wait_until (poll_fuel p) namespace selector name uid (add now p.ready_timeout) s'
