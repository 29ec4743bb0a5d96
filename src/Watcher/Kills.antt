-- ===== src/Watcher/Kills.antt =====
-- What internal/oomwatch/watcher.go reads from a pod's status: which kills, and the limit each had.
use mathlib.Core.List.{Mem}
use k8s_sustain.Prelude.{
  ℕ, suc, ◌||◌, length, length-append, ◌≡◌, ◌≢◌, ◌⊎◌, inl, inr, refl, sym, ◌∙◌, Bool, true, false,
  ◌&&◌, not, Option, none, some, List, [], ◌∷◌, String, String-discrete, All, All-append, All-own,
  All-map, Bool-cases, arith, is_same_iff, if_test, if◌then◌else◌,
}
use k8s_sustain.Units.{Quantities}
use k8s_sustain.WlrCache.{same_text}
use k8s_sustain.Watcher.{
  Termination, ContainerStatus, Pod, OomKill, is_oom_kill, mem_limit_bytes, spec_limit_bytes,
  applied_limit_bytes, container_mem_limit_bytes, kill_of, status_kill, kills_in, oom_kills,
}

same_text_self : (a : String) → same_text a a ≡ true
same_text_self a = (is_same_iff String-discrete a a).1 refl

same_text-ne : (a b : String) → a ≢ b → same_text a b ≡ false
same_text-ne a b ne = elim (Bool-cases (same_text a b)) [
  | inl e ↦ absurd (ne ((is_same_iff String-discrete a b).0 e))
  | inr e ↦ e
]

module _ {Q : Type 0} where
  -- No two statuses of the same container.
  abbrev pub HasDistinctNames : List (ContainerStatus Q) → Type 0
  HasDistinctNames [] = Unit
  HasDistinctNames (cs ∷ rest) = All (λ d. cs.name ≢ d.name) rest × HasDistinctNames rest

  module _ ⦃qu : Quantities Q⦄ (as_int64 : Q → Option ℕ) where
    -- The limit that one status reports, or the other where it reports no resources.
    abbrev pub own_limit_bytes : ContainerStatus Q → ℕ → ℕ
    own_limit_bytes cs of_spec = elim cs.resources [
      | none ↦ of_spec
      | some r ↦ mem_limit_bytes as_int64 r.limits
    ]

    -- The first loop answers what the status itself reports.
    abbrev IsOwn : (String → ℕ) → List (ContainerStatus Q) → ContainerStatus Q → Type 0
    IsOwn of_spec statuses cs =
        applied_limit_bytes as_int64 cs.name (of_spec cs.name) statuses
        ≡ own_limit_bytes cs (of_spec cs.name)

    applied-absent :
        (name : String) (of_spec : ℕ) (statuses : List (ContainerStatus Q))
        → All (λ d. name ≢ d.name) statuses
        → applied_limit_bytes as_int64 name of_spec statuses ≡ of_spec
    unfolding applied_limit_bytes
    applied-absent name of_spec [] _ = refl
    applied-absent name of_spec (d ∷ rest) (ne, nes) =
        let other = same_text-ne d.name name (λ e. ne (sym e)) in
        let later = applied-absent name of_spec rest nes in ground (arith, other, later)

    applied-head :
        (of_spec : ℕ) (cs : ContainerStatus Q) (rest : List (ContainerStatus Q))
        → All (λ d. cs.name ≢ d.name) rest
        → applied_limit_bytes as_int64 cs.name of_spec (cs ∷ rest) ≡ own_limit_bytes cs of_spec
    unfolding applied_limit_bytes
    applied-head of_spec cs rest ne =
        ground (arith, same_text_self cs.name, applied-absent cs.name of_spec rest ne)

    applied-tail :
        (of_spec : ℕ) (cs d : ContainerStatus Q) (rest : List (ContainerStatus Q))
        → cs.name ≢ d.name
        → applied_limit_bytes as_int64 d.name of_spec (cs ∷ rest)
          ≡ applied_limit_bytes as_int64 d.name of_spec rest
    unfolding applied_limit_bytes
    applied-tail of_spec cs d rest ne = ground (arith, same_text-ne cs.name d.name ne)

    later-IsOwn :
        (of_spec : String → ℕ) (cs : ContainerStatus Q) (rest ds : List (ContainerStatus Q))
        → All (λ d. cs.name ≢ d.name) ds
        → All (IsOwn of_spec rest) ds
        → All (IsOwn of_spec (cs ∷ rest)) ds
    later-IsOwn of_spec cs rest [] _ _ = tt
    later-IsOwn of_spec cs rest (d ∷ ds) (ne, nes) (h, hs) =
        (applied-tail (of_spec d.name) cs d rest ne ∙ h, later-IsOwn of_spec cs rest ds nes hs)

    applied-IsOwn :
        (of_spec : String → ℕ) (statuses : List (ContainerStatus Q))
        → HasDistinctNames statuses
        → All (IsOwn of_spec statuses) statuses
    applied-IsOwn of_spec [] _ = tt
    applied-IsOwn of_spec (cs ∷ rest) (ne, distinct) = (
      applied-head (of_spec cs.name) cs rest ne,
      later-IsOwn of_spec cs rest rest ne (applied-IsOwn of_spec rest distinct),
    )

    -- The termination that a kill is read from: the last one, after which the container restarted,
    -- or, where that is no OOM kill, the current one of a pod that never restarts its containers.
    abbrev pub Shows : Pod Q → ContainerStatus Q → Bool → Option Termination → Type 0
    Shows pod cs restarted term =
        ((restarted ≡ true) × (term ≡ cs.last_terminated))
        ⊎ ((restarted ≡ false)
            × (pod.never_restarts ≡ true)
            × (is_oom_kill cs.last_terminated ≡ false)
            × (term ≡ cs.state_terminated))

    -- A kill of a status, read from one of its terminations, which is an OOM kill.
    abbrev pub ShownBy : Pod Q → ContainerStatus Q → OomKill → Type 0
    ShownBy pod cs k =
        (k.container ≡ cs.name)
        × ((t : Termination) × (is_oom_kill (some t) ≡ true)
            × (k.terminated_at ≡ t.finished_at)
            × Shows pod cs k.restarted (some t))

    kill_of-ShownBy :
        (pod : Pod Q) (cs : ContainerStatus Q) (restarted : Bool) (term : Option Termination)
        → Shows pod cs restarted term
        → All
            (λ k.
              ShownBy pod cs k × (k.limit_bytes ≡ container_mem_limit_bytes as_int64 pod cs.name))
            (kill_of as_int64 pod cs restarted term)
    kill_of-ShownBy pod cs restarted none h = tt
    kill_of-ShownBy pod cs restarted (some t) h =
        if_test (All _) (is_oom_kill (some t)) _ [] (λ e. (((refl, (t, e, refl, h)), refl), tt))
          (λ _. tt)

    status_kill-ShownBy :
        (pod : Pod Q) (cs : ContainerStatus Q)
        → All
            (λ k.
              ShownBy pod cs k × (k.limit_bytes ≡ container_mem_limit_bytes as_int64 pod cs.name))
            (status_kill as_int64 pod cs)
    unfolding status_kill
    status_kill-ShownBy pod cs =
        if_test (All _) (not (is_oom_kill cs.last_terminated) && pod.never_restarts) _ _
          (λ e.
            kill_of-ShownBy pod cs false cs.state_terminated
              (inr (refl, ground (arith, e), ground (arith, e), refl)))
          (λ _. kill_of-ShownBy pod cs true cs.last_terminated (inl (refl, refl)))

    -- A kill that one of the statuses shows, with the limit that this status reports as applied, or
    -- the spec's where it reports no resources.
    abbrev pub IsApplied : Pod Q → OomKill → Type 0
    IsApplied pod k =
        (cs : ContainerStatus Q) × Mem cs pod.container_statuses
        × ShownBy pod cs k
        × (k.limit_bytes ≡ own_limit_bytes cs (spec_limit_bytes as_int64 cs.name pod.containers))

    kills_in-IsApplied :
        (pod : Pod Q) (ds : List (ContainerStatus Q))
        → All (λ cs. Mem cs pod.container_statuses) ds
        → All
            (IsOwn (λ name. spec_limit_bytes as_int64 name pod.containers) pod.container_statuses)
            ds
        → All (IsApplied pod) (kills_in as_int64 pod ds)
    unfolding kills_in container_mem_limit_bytes
    kills_in-IsApplied pod [] _ _ = tt
    kills_in-IsApplied pod (cs ∷ ds) (m, ms) (own, owns) =
        All-append (IsApplied pod) (status_kill as_int64 pod cs) (kills_in as_int64 pod ds)
          (All-map (λ k (shown, limit). (cs, m, shown, limit ∙ own)) (status_kill as_int64 pod cs)
            (status_kill-ShownBy pod cs))
          (kills_in-IsApplied pod ds ms owns)

    -- The statuses that show an OOM kill.
    abbrev pub shown_count : Pod Q → List (ContainerStatus Q) → ℕ
    shown_count pod [] = 0
    shown_count pod (cs ∷ ds) =
        let rest = shown_count pod ds in
        if is_oom_kill cs.last_terminated || (pod.never_restarts && is_oom_kill cs.state_terminated)
        then suc rest
        else rest

    length-kill_of :
        (pod : Pod Q) (cs : ContainerStatus Q) (restarted : Bool) (term : Option Termination)
        → length (kill_of as_int64 pod cs restarted term) ≡ (if is_oom_kill term then 1 else 0)
    unfolding is_oom_kill
    length-kill_of pod cs restarted none = refl
    length-kill_of pod cs restarted (some t) = ground arith

    length-status_kill :
        (pod : Pod Q) (cs : ContainerStatus Q)
        → length (status_kill as_int64 pod cs) ≡ (
            if is_oom_kill cs.last_terminated
              || (pod.never_restarts && is_oom_kill cs.state_terminated)
            then 1
            else 0)
    unfolding status_kill
    length-status_kill pod cs = ground (
      arith,
      length-kill_of pod cs false cs.state_terminated,
      length-kill_of pod cs true cs.last_terminated,
    )

    length-kills_in :
        (pod : Pod Q) (ds : List (ContainerStatus Q))
        → length (kills_in as_int64 pod ds) ≡ shown_count pod ds
    unfolding kills_in
    length-kills_in pod [] = refl
    length-kills_in pod (cs ∷ ds) = ground (
      arith,
      length-append (status_kill as_int64 pod cs) (kills_in as_int64 pod ds),
      length-status_kill pod cs,
      length-kills_in pod ds,
    )

    -- Where the statuses are of different containers, there are as many kills as statuses that show
    -- one, and each is an OOM kill of one of them: its last termination, or the current one of a pod
    -- that never restarts. Its limit is the one that this status reports as applied, and the spec's
    -- only where it reports no resources.
    pub oom_kills-IsApplied :
        (pod : Pod Q)
        → HasDistinctNames pod.container_statuses
        → All (IsApplied pod) (oom_kills as_int64 pod)
          × (length (oom_kills as_int64 pod) ≡ shown_count pod pod.container_statuses)
    unfolding oom_kills
    oom_kills-IsApplied pod distinct = (
      kills_in-IsApplied pod pod.container_statuses (All-own pod.container_statuses) (
          applied-IsOwn (λ name. spec_limit_bytes as_int64 name pod.containers)
            pod.container_statuses distinct),
      length-kills_in pod pod.container_statuses,
    )
