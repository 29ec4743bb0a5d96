-- ===== src/Patcher/WaitLaws.antt =====
-- What the wait for a replacement has seen when it ends well (internal/workload/patcher.go).
use k8s_sustain.Prelude.{
  ℕ, zero, suc, ◌+◌, ◌≡◌, refl, sym, ap, Bool, true, false, ◌&&◌, not, Option, none, some, List, [],
  ◌∷◌, String, All, arith, ◌==◌, if◌then◌else◌, ◌≢◌, if_both,
}
use k8s_sustain.Prelude.Time.{Time, add, after}
use k8s_sustain.Patcher.Pods.{Pod, has_crash_loop_back_off, is_progressing}
use k8s_sustain.Patcher.Cluster.{Answer, granted, denied, View, Failure, Patcher}
use k8s_sustain.Patcher.Waiting.{
  Scan, crashes, scanned, Poll, ended, polls_on, is_evicted, scan, poll, by_scan, listed, timed,
  paused, continue, wait_until, wait_for_replacement, poll_fuel,
}

-- Neither the evicted pod, nor one that crash-loops, nor one that is on its way.
abbrev pub IsQuiet : {Q : Type 0} → String → String → Pod Q → Type 0
IsQuiet name uid pod =
    (is_evicted name uid pod ≡ false)
    × (has_crash_loop_back_off pod ≡ false)
    × (is_progressing pod ≡ false)

quiet_so_far :
    (evicted moving gone : Bool) (n : ℕ)
    → (if evicted then false else gone) ≡ true
    → (if not evicted && moving then n + 1 else n) ≡ 0
    → (gone ≡ true) × (n ≡ 0) × (evicted ≡ false) × (moving ≡ false)
quiet_so_far evicted moving gone n g w = ground (arith, g, w)

uncrashed :
    (b : Bool) (name : String) (found : Scan)
    → (if b then crashes name else found) ≡ scanned true 0
    → (b ≡ false) × (found ≡ scanned true 0)
uncrashed true name found h = ground (arith, h)
uncrashed false name found h = (refl, h)

is_quiet : (gone : Bool) (n : ℕ) → (gone && n == 0) ≡ true → scanned gone n ≡ scanned true 0
is_quiet true n h = ground (arith, h)
is_quiet false n h = ground (arith, h)

first_of :
    {S : Type 0} (b : Bool) (x y : S × Poll)
    → (if b then x else y).1 ≡ ended none
    → y.1 ≢ ended none
    → (b ≡ true) × ((if b then x else y).0 ≡ x.0)
first_of true x y h n = (refl, refl)
first_of false x y h n = absurd (n h)

module _ {Q : Type 0} (name uid : String) where
  scan-IsQuiet :
      (pods : List (Pod Q)) (gone : Bool) (n : ℕ)
      → scan name uid pods gone n ≡ scanned true 0
      → (gone ≡ true) × (n ≡ 0) × All (IsQuiet name uid) pods
  unfolding scan
  scan-IsQuiet [] gone n h = ground (arith, h)
  scan-IsQuiet (pod ∷ pods) gone n h =
      let (e, h') = uncrashed (has_crash_loop_back_off pod) pod.name _ h in
      let (g, w, rest) = scan-IsQuiet pods _ _ h' in
      let (g', w', ev, moving) =
        quiet_so_far (is_evicted name uid pod) (is_progressing pod) gone n g w in
      (g', w', ((ev, e, moving), rest))

module _ {S L Q : Type 0} (api : View S L Q) (p : Patcher) where
  paused-busy : (r : S × Option String) → (paused api p r).1 ≢ ended none
  paused-busy (s, none) h = ground (arith, h)
  paused-busy (s, some e) h = ground (arith, h)

  timed-busy :
      (deadline : Time) (gone : Bool) (n : ℕ) (s : S) (now : Time)
      → (timed api p deadline gone n (s, now)).1 ≢ ended none
  timed-busy deadline gone n s now =
      if_both (λ (x : S × Poll). x.1 ≢ ended none) (after now deadline) _ _ (λ h. ground (arith, h))
        (paused-busy (api.pause p.ready_poll_interval s))

  by_scan-quiet :
      (deadline : Time) (found : Scan) (s : S)
      → (by_scan api p deadline found s).1 ≡ ended none
      → (found ≡ scanned true 0) × ((by_scan api p deadline found s).0 ≡ s)
  by_scan-quiet deadline (crashes name) s h = ground (arith, h)
  by_scan-quiet deadline (scanned gone n) s h =
      let (e, same_state) =
        first_of (gone && n == 0) (s, ended none) (timed api p deadline gone n (api.now s)) h
          (timed-busy deadline gone n (api.now s).0 (api.now s).1) in
      (is_quiet gone n e, same_state)

  -- The last listing that a wait made, at the state it ends in.
  pub SawQuiet : String → Option L → String → String → S → Type 0
  SawQuiet ns l name uid s =
      (s0 : S) × (pods : List (Pod Q)) × (api.list_pods ns l s0 ≡ (s, granted pods))
      × All (IsQuiet name uid) pods

  listed-IsQuiet :
      (name uid : String) (deadline : Time) (s : S) (r : Answer (List (Pod Q)))
      → (listed api p name uid deadline (s, r)).1 ≡ ended none
      → ((listed api p name uid deadline (s, r)).0 ≡ s)
        × ((pods : List (Pod Q)) × (r ≡ granted pods) × All (IsQuiet name uid) pods)
  listed-IsQuiet name uid deadline s (denied x) h = ground (arith, h)
  listed-IsQuiet name uid deadline s (granted pods) h =
      let (found, same_state) = by_scan-quiet deadline (scan name uid pods true 0) s h in
      (same_state, (pods, refl, (scan-IsQuiet name uid pods true 0 found).2))

  poll-SawQuiet :
      (ns : String) (l : Option L) (name uid : String) (deadline : Time) (s : S)
      → (poll api p ns l name uid deadline s).1 ≡ ended none
      → SawQuiet ns l name uid (poll api p ns l name uid deadline s).0
  unfolding poll SawQuiet
  poll-SawQuiet ns l name uid deadline s h =
      let (same_state, (pods, r, quiet)) =
        listed-IsQuiet name uid deadline (api.list_pods ns l s).0 (api.list_pods ns l s).1 h in
      (s, pods, λ i. (sym same_state i, r i), quiet)

  continue-SawQuiet :
      (ns : String) (l : Option L) (name uid : String) (polled : S × Poll)
      (k : S → S × Option Failure)
      → (polled.1 ≡ ended none → SawQuiet ns l name uid polled.0)
      → ((s : S) → (k s).1 ≡ none → SawQuiet ns l name uid (k s).0)
      → (continue polled k).1 ≡ none
      → SawQuiet ns l name uid (continue polled k).0
  continue-SawQuiet ns l name uid (s, ended result) k f g h = f (ap ended h)
  continue-SawQuiet ns l name uid (s, polls_on) k f g h = g s h

  wait_until-SawQuiet :
      (fuel : ℕ) (ns : String) (l : Option L) (name uid : String) (deadline : Time) (s : S)
      → (wait_until api p fuel ns l name uid deadline s).1 ≡ none
      → SawQuiet ns l name uid (wait_until api p fuel ns l name uid deadline s).0
  unfolding wait_until
  wait_until-SawQuiet zero ns l name uid deadline s h = ground (arith, h)
  wait_until-SawQuiet (suc n) ns l name uid deadline s h =
      continue-SawQuiet ns l name uid (poll api p ns l name uid deadline s)
        (wait_until api p n ns l name uid deadline) (poll-SawQuiet ns l name uid deadline s)
        (wait_until-SawQuiet n ns l name uid deadline) h

  -- A pass goes on after an eviction only from a state in which the pods were just listed, the
  -- evicted one gone, none of the others crash-looping, and none pending or running unready.
  pub wait_for_replacement-SawQuiet :
      (ns : String) (l : Option L) (name uid : String) (s : S)
      → (wait_for_replacement api p ns l name uid s).1 ≡ none
      → SawQuiet ns l name uid (wait_for_replacement api p ns l name uid s).0
  unfolding wait_for_replacement
  wait_for_replacement-SawQuiet ns l name uid s =
      wait_until-SawQuiet (poll_fuel p) ns l name uid (add (api.now s).1 p.ready_timeout)
        (api.now s).0
