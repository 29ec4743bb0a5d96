-- ===== src/Recommender/OomLaws.antt =====
-- The OOM floor and the merge of live kills (Recommender/Signals.antt, Recommender/Live.antt).
use mathlib.Core.Path.{subst}
use k8s_sustain.Prelude.{
  ◌≡◌, ◌≢◌, refl, sym, ap, ◌∙◌, inl, inr, true, false, Option, none, some, List, [], ◌∷◌, String,
  String-discrete, insert, lookup-insert_self, lookup-insert_ne, arith, All, Bool-cases, Bool, ◌==◌,
  ◌||◌, ◌*◌, if◌then◌else◌,
}
use k8s_sustain.Prelude.Int.{pos, ltb_ℤ}
use k8s_sustain.Prelude.Time.{Time, sub, after, minute}
use k8s_sustain.Units.{Floats, FloatOrder, lt}
use k8s_sustain.OomWatch.{OomRecord}
use k8s_sustain.Recommender.Inputs.{WorkloadInputs, Oom, OomValues, oom_of, zero_oom}
use k8s_sustain.Recommender.Signals.{Anchor, floor, oom_bump_factor}
use k8s_sustain.Recommender.Live.{is_ignored, with_kill, merge_live, with_live_ooms}

module _ {F : Type 0} ⦃fl : Floats F⦄ (ord : FloatOrder F) where
  open ord use {lt_irrefl, lt_trans}

  asym : (x y : F) → lt x y ≡ true → lt y x ≡ false
  asym x y h = elim (Bool-cases (lt y x)) [
    | inl k ↦ cc (lt_trans x y x h k, lt_irrefl x)
    | inr k ↦ k
  ]

  -- An anchored floor lies below neither of its anchors: not below the peak that was reported, and
  -- not below 1.2 times the limit that the kernel killed at.
  pub floor_covers :
      (o : Oom F) (a : Anchor)
      → (floor o).1 ≡ some a
      → (o.has_peak ≡ true → lt (floor o).0 o.peak_bytes ≡ false)
        × (lt (fl.of_int (pos 0)) o.limit_bytes ≡ true
            → lt (floor o).0 (fl.mul o.limit_bytes oom_bump_factor) ≡ false)
  unfolding floor
  floor_covers o a h = ground (
    arith,
    asym o.peak_bytes (fl.mul o.limit_bytes oom_bump_factor),
    lt_irrefl (fl.mul o.limit_bytes oom_bump_factor),
    lt_irrefl o.peak_bytes,
  )

-- The test for a record of another time, written out.
ignored :
    (r : OomRecord) (at : Time)
    → (b : Bool) → is_ignored r at ≡ b
    → (ltb_ℤ (pos (30 * minute)) (sub at r.observed_at)
        || after (if r.terminated_at == 0 then r.observed_at else r.terminated_at) at)
      ≡ b
unfolding is_ignored
ignored r at b h = ground (arith, h)

abbrev pub Absent : String → List (String × Option OomRecord) → Type 0
Absent n = All (λ e. n ≢ e.0)

abbrev pub DistinctNames : List (String × Option OomRecord) → Type 0
DistinctNames [] = Unit {0}
DistinctNames (e ∷ live) = Absent e.0 live × DistinctNames live

module _ {F : Type 0} ⦃fl : Floats F⦄ where
  -- What a watcher's record makes of a container's kills: the instant of the kill, when the kubelet
  -- finished the container or, where that is unset, when it was observed, and the larger limit.
  abbrev pub merged_kill : Option OomRecord → Time → Oom F → Oom F
  merged_kill none at o = o
  merged_kill (some r) at o =
      let killed = if r.terminated_at == 0 then r.observed_at else r.terminated_at in
      let limit = fl.of_int (pos r.oom_limit_bytes) in
      if ltb_ℤ (pos (30 * minute)) (sub at r.observed_at) || after killed at then o else record o {
        live_at = killed;
        limit_bytes = if lt o.limit_bytes limit then limit else o.limit_bytes;
      }

  abbrev turn : String → Option OomRecord → Time → OomValues F → OomValues F
  turn n none at m = m
  turn n (some r) at m =
      if is_ignored r at then m else insert String-discrete n (with_kill r (oom_of m n)) m

  merge_live-turn :
      (n : String) (o : Option OomRecord) (live : List (String × Option OomRecord)) (at : Time)
      (m : OomValues F)
      → merge_live ((n, o) ∷ live) at m ≡ merge_live live at (turn n o at m)
  unfolding merge_live
  merge_live-turn n none live at m = refl
  merge_live-turn n (some r) live at m = refl

  abbrev or_zero : Option (Oom F) → Oom F
  or_zero none = zero_oom
  or_zero (some o) = o

  oom_of-insert_self :
      (n : String) (o : Oom F) (m : OomValues F) → oom_of (insert String-discrete n o m) n ≡ o
  unfolding oom_of
  oom_of-insert_self n o m = ap or_zero (lookup-insert_self String-discrete n o m)

  oom_of-insert_ne :
      (n q : String) (o : Oom F) (m : OomValues F)
      → q ≢ n
      → oom_of (insert String-discrete n o m) q ≡ oom_of m q
  unfolding oom_of
  oom_of-insert_ne n q o m h = ap or_zero (lookup-insert_ne String-discrete n q o m h)

  oom_of-turn :
      (n : String) (o : Option OomRecord) (at : Time) (m : OomValues F)
      → oom_of (turn n o at m) n ≡ merged_kill o at (oom_of m n)
  unfolding with_kill
  oom_of-turn n none at m = refl
  oom_of-turn n (some r) at m = elim (Bool-cases (is_ignored r at)) [
    | inl e ↦ rw (e, ignored r at _ e)
    | inr e ↦ rw (e, ignored r at _ e) (oom_of-insert_self n (with_kill r (oom_of m n)) m)
  ]

  oom_of-turn_ne :
      (n q : String) (o : Option OomRecord) (at : Time) (m : OomValues F)
      → q ≢ n
      → oom_of (turn n o at m) q ≡ oom_of m q
  oom_of-turn_ne n q none at m h = refl
  oom_of-turn_ne n q (some r) at m h = elim (Bool-cases (is_ignored r at)) [
    | inl e ↦ rw e
    | inr e ↦ rw e (oom_of-insert_ne n q (with_kill r (oom_of m n)) m h)
  ]

  -- A container that the watcher has no record of keeps its kills.
  merge_live-Absent :
      (live : List (String × Option OomRecord)) (at : Time) (m : OomValues F) (q : String)
      → Absent q live
      → oom_of (merge_live live at m) q ≡ oom_of m q
  unfolding merge_live
  merge_live-Absent [] at m q h = refl
  merge_live-Absent ((n, o) ∷ live) at m q h =
      rw (merge_live-turn n o live at m)
        (merge_live-Absent live at (turn n o at m) q h.1 ∙ oom_of-turn_ne n q o at m h.0)

  merge_live_lem :
      (live : List (String × Option OomRecord)) (at : Time) (m m' : OomValues F)
      → DistinctNames live
      → All (λ e. oom_of m e.0 ≡ oom_of m' e.0) live
      → All (λ e. oom_of (merge_live live at m) e.0 ≡ merged_kill e.1 at (oom_of m' e.0)) live
  merge_live_lem [] at m m' d h = tt
  merge_live_lem ((n, o) ∷ live) at m m' d h =
      subst
        (λ (r : OomValues F).
          All (λ e. oom_of r e.0 ≡ merged_kill e.1 at (oom_of m' e.0)) ((n, o) ∷ live))
        (sym (merge_live-turn n o live at m))
        (
          merge_live-Absent live at (turn n o at m) n d.0
              ∙ (oom_of-turn n o at m ∙ ap (merged_kill o at) h.0),
          merge_live_lem live at (turn n o at m) m' d.1 (others live d.0 h.1),
        )
    where
      others :
          (rest : List (String × Option OomRecord))
          → Absent n rest
          → All (λ e. oom_of m e.0 ≡ oom_of m' e.0) rest
          → All (λ e. oom_of (turn n o at m) e.0 ≡ oom_of m' e.0) rest
      others [] a k = tt
      others (e ∷ rest) a k =
          (oom_of-turn_ne n e.0 o at m (λ p. a.0 (sym p)) ∙ k.0, others rest a.1 k.1)

  itself :
      (live : List (String × Option OomRecord)) (m : OomValues F)
      → All (λ e. oom_of m e.0 ≡ oom_of m e.0) live
  itself [] m = tt
  itself (e ∷ live) m = (refl, itself live m)

  -- With one record to a container, the merge gives each container that has a record the kill of
  -- the record, unless the record is nil, too old or of a later kill; it changes the kills of no
  -- other container, and no usage.
  pub with_live_ooms_lem :
      (inputs : WorkloadInputs F) (live : List (String × Option OomRecord)) (at : Time)
      → DistinctNames live
      → let out = with_live_ooms inputs live at in
        All (λ e. oom_of out.oom_kills e.0 ≡ merged_kill e.1 at (oom_of inputs.oom_kills e.0)) live
        × ((q : String) → Absent q live → oom_of out.oom_kills q ≡ oom_of inputs.oom_kills q)
        × (out.cpu_usage ≡ inputs.cpu_usage)
        × (out.memory_usage ≡ inputs.memory_usage)
  unfolding with_live_ooms
  with_live_ooms_lem inputs [] at d = (tt, λ q h. refl, refl, refl)
  with_live_ooms_lem inputs (r ∷ live) at d = (
    merge_live_lem (r ∷ live) at inputs.oom_kills inputs.oom_kills d (itself (r ∷ live) _),
    λ q h. merge_live-Absent (r ∷ live) at inputs.oom_kills q h,
    refl,
    refl,
  )
