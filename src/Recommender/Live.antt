-- ===== src/Recommender/Live.antt =====
-- internal/recommender/signal_oom.go: the kills that the OOM Pod watcher saw, merged into the
-- inputs that were fetched.
use k8s_sustain.Prelude.{
  ℕ, ◌*◌, Bool, true, Option, none, some, List, [], ◌∷◌, String, String-discrete, insert,
  if◌then◌else◌,
}
use k8s_sustain.Prelude.Int.{pos, ltb_ℤ}
use k8s_sustain.Prelude.Time.{Time, is_zero, after, sub, minute}
use k8s_sustain.Units.{Floats, max_f}
use k8s_sustain.OomWatch.{OomRecord}
use k8s_sustain.Recommender.Inputs.{WorkloadInputs, Oom, OomValues, oom_of}

abbrev pub live_oom_window : ℕ
live_oom_window = 30 * minute

-- When the kill happened: the kubelet may leave FinishedAt unset.
abbrev pub killed_at : OomRecord → Time
killed_at r = if is_zero r.terminated_at then r.observed_at else r.terminated_at

-- Whether a record is nil, too old at an instant, or of a kill after it.
unfoldable pub is_ignored : OomRecord → Time → Bool
is_ignored r at =
    if ltb_ℤ (pos live_oom_window) (sub at r.observed_at) then true else after (killed_at r) at

module _ {F : Type 0} ⦃fl : Floats F⦄ where
  unfoldable pub with_kill : OomRecord → Oom F → Oom F
  with_kill r o = record o {
    live_at = killed_at r;
    limit_bytes = max_f o.limit_bytes (fl.of_int (pos r.oom_limit_bytes));
  }

  -- The loop over the records; a nil record is none.
  unfoldable pub merge_live : List (String × Option OomRecord) → Time → OomValues F → OomValues F
  unfolding is_ignored with_kill oom_of
  merge_live [] at merged = merged
  merge_live ((container, none) ∷ live) at merged = merge_live live at merged
  merge_live ((container, some r) ∷ live) at merged = merge_live live at (
      if is_ignored r at
      then merged
      else insert String-discrete container (with_kill r (oom_of merged container)) merged)

  unfoldable pub with_live_ooms :
      WorkloadInputs F → List (String × Option OomRecord) → Time → WorkloadInputs F
  unfolding merge_live
  with_live_ooms inputs [] at = inputs
  with_live_ooms inputs (r ∷ live) at = record inputs {
    oom_kills = merge_live (r ∷ live) at inputs.oom_kills;
  }
