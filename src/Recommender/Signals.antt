-- ===== src/Recommender/Signals.antt =====
-- internal/recommender/signal.go with the stages of its signals (signal_usage.go, signal_oom.go):
-- each signal's slot, what it contributes to a container, and its trace entry.
use k8s_sustain.Prelude.{
  ℕ, suc, Bool, true, false, ◌&&◌, Option, none, some, List, [], ◌∷◌, ◌++◌, String, String-discrete,
  lookup, ◌==◌, if◌then◌else◌,
}
use k8s_sustain.Prelude.Int.{pos}
use k8s_sustain.Prelude.Time.{Time, is_zero}
use k8s_sustain.Units.{Quantities, Floats, lt}
use k8s_sustain.Api.{
  ResourceKind, cpu, memory, Container, ResourceConfig, Fact, flag, word, amount, instant,
  TraceStage,
}
use k8s_sustain.Recommender.Resources.{quantity}
use k8s_sustain.Recommender.Inputs.{WorkloadInputs, Oom, usage_values, oom_of, recent}

pub data Signal : Type 0 where
  usage : ResourceKind → Signal
  oom_floor : Signal

-- In the order their stages run within a role.
abbrev pub signals : List Signal
signals = usage cpu ∷ usage memory ∷ oom_floor ∷ []

pub data Role : Type 0 where
  base adjuster limit_adjuster : Role

pub record StageContext (F Q : Type 0) : Type 0 where
  pub inputs : WorkloadInputs F
  pub config : ResourceConfig F Q
  pub container : Container Q
  pub now : Time
  -- the final request, on the limit side
  pub request : Option Q

pub record Contribution (F : Type 0) : Type 0 where
  pub value : F
  pub anchors : Bool

-- Which observation an OOM floor rests on.
pub data Anchor : Type 0 where
  peak killed_at_limit : Anchor

abbrev same_role : Role → Role → Bool
same_role base base = true
same_role adjuster adjuster = true
same_role limit_adjuster limit_adjuster = true
same_role _ _ = false

abbrev same_resource : ResourceKind → ResourceKind → Bool
same_resource cpu cpu = true
same_resource memory memory = true
same_resource _ _ = false

unfoldable pub slot : Signal → Role × ResourceKind
slot (usage res) = (base, res)
slot oom_floor = (adjuster, memory)

slot_filter : Role → ResourceKind → List Signal → List Signal
unfolding slot
slot_filter r res [] = []
slot_filter r res (s ∷ ss) =
    let rest = slot_filter r res ss in
    if same_role (slot s).0 r && same_resource (slot s).1 res then s ∷ rest else rest

unfoldable pub in_slot : Role → ResourceKind → List Signal
unfolding slot_filter
in_slot r res = slot_filter r res signals

module _ {F : Type 0} ⦃fl : Floats F⦄ where
  abbrev pub oom_bump_factor : F
  oom_bump_factor = fl.of_milli 1200

  -- The higher of the peak and the bumped limit, and the anchor that set it.
  unfoldable pub floor : Oom F → F × Option Anchor
  floor o =
      let bumped = fl.mul o.limit_bytes oom_bump_factor in
      if lt (fl.of_int (pos 0)) o.limit_bytes && lt o.peak_bytes bumped
      then (bumped, some killed_at_limit)
      else if o.has_peak
      then (o.peak_bytes, some peak)
      else (fl.of_int (pos 0), none)

module _ {F Q : Type 0} ⦃fl : Floats F⦄ ⦃qu : Quantities Q⦄ where
  -- `valuesOf[oomValues](sc.inputs, f)[sc.container.Name]`
  abbrev pub ooms : StageContext F Q → Oom F
  ooms sc = oom_of sc.inputs.oom_kills sc.container.name

  unfoldable pub contribute : Signal → StageContext F Q → Option (Contribution F)
  unfolding String-discrete usage_values recent floor oom_of
  contribute (usage res) sc =
      elim (lookup String-discrete sc.container.name (usage_values res sc.inputs)) [
        | none ↦ none
        | some v ↦ some (record { value = v; anchors = true })
      ]
  contribute oom_floor sc =
      if recent (ooms sc)
      then some (record {
        value = (floor (ooms sc)).0;
        anchors = elim (floor (ooms sc)).1 [ none ↦ false | some a ↦ true ];
      })
      else none

  abbrev anchor_fact : Option Anchor → List (String × Fact F Q)
  anchor_fact none = []
  anchor_fact (some peak) = ("anchor", word "peak") ∷ []
  anchor_fact (some killed_at_limit) = ("anchor", word "killedAtLimit") ∷ []

  unfoldable pub stage : Signal → StageContext F Q → F → Bool → TraceStage F Q
  unfolding quantity floor oom_of
  stage (usage res) sc v determined = record {
    stage = "percentile";
    value = some (quantity res v);
    removed = false;
    facts = [];
  }
  stage oom_floor sc v determined = record {
    stage = "oomFloor";
    value = some (quantity memory v);
    removed = false;
    facts =
        (("determined", flag determined) ∷ [])
        ++ (anchor_fact (floor (ooms sc)).1
            ++ ((if lt (fl.of_int (pos 0)) (ooms sc).limit_bytes
                  then ("killedAtLimit", amount (quantity memory (ooms sc).limit_bytes)) ∷ []
                  else [])
                ++ (if is_zero (ooms sc).live_at
                    then []
                    else ("liveKillAt", instant (ooms sc).live_at) ∷ [])));
  }

abbrev is_index : Option ℕ → ℕ → Bool
is_index none i = false
is_index (some j) i = i == j

pub record Contributed (F : Type 0) : Type 0 where
  pub signal : Signal
  pub role : Role
  pub contribution : Contribution F
  pub open contribution use {value, anchors}

module _ {F Q : Type 0} ⦃fl : Floats F⦄ ⦃qu : Quantities Q⦄ where
  -- The inner loop of `contributionsTo`.
  unfoldable pub contributions_of : StageContext F Q → Role → List Signal → List (Contributed F)
  contributions_of sc r [] = []
  contributions_of sc r (s ∷ ss) =
      let rest = contributions_of sc r ss in
      elim (contribute s sc) [
        | none ↦ rest
        | some ct ↦ record { signal = s; role = r; contribution = ct } ∷ rest
      ]

  unfoldable pub contributions_to :
      StageContext F Q → ResourceKind → List Role → List (Contributed F)
  unfolding contributions_of in_slot
  contributions_to sc res [] = []
  contributions_to sc res (r ∷ rs) =
      contributions_of sc r (in_slot r res) ++ contributions_to sc res rs

  stages_from : ℕ → List (Contributed F) → StageContext F Q → Option ℕ → List (TraceStage F Q)
  stages_from i [] sc determined = []
  stages_from i (c ∷ cs) sc determined =
      stage c.signal sc c.value (is_index determined i) ∷ stages_from (suc i) cs sc determined

  -- Only the contribution at `determined`, if any, reached the final request or limit.
  unfoldable pub stages_of :
      List (Contributed F) → StageContext F Q → Option ℕ → List (TraceStage F Q)
  unfolding stages_from
  stages_of = stages_from 0
