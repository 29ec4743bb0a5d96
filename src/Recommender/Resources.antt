-- ===== src/Recommender/Resources.antt =====
-- internal/recommender/recommender.go: the two resources, headroom and rounding, the clamp.
use k8s_sustain.Prelude.{
  ℕ, ◌*◌, Option, none, some, String, String-discrete, lookup, ite, if◌then◌else◌,
}
use k8s_sustain.Prelude.Int.{ℤ, pos, ◌+ℤ◌, ◌-ℤ◌, ◌*ℤ◌, ltb_ℤ, max_ℤ, int64, int32, quot}
use k8s_sustain.Units.{decimal_si, binary_si, Quantities, Floats, less, is_zero_quantity}
use k8s_sustain.Api.{
  ResourceKind, cpu, memory, ResourceKind-discrete, ResourceList, ResourceConfig, ResourcesConfigs,
}

abbrev pub default_percentile : ℕ
default_percentile = 95

abbrev pub default_window : String
default_window = "168h"

abbrev pub mebibyte : ℕ
mebibyte = 1_048_576

abbrev pub min_cpu_millicores : ℕ
min_cpu_millicores = 1

abbrev pub min_memory_mib : ℕ
min_memory_mib = 1

unfoldable pub resource_window : String → String
unfolding String-discrete
resource_window w = ite (String-discrete w "") default_window w

module _ {F Q : Type 0} where
  abbrev pub config : ResourceKind → ResourcesConfigs F Q → ResourceConfig F Q
  config cpu cfg = cfg.cpu_config
  config memory cfg = cfg.memory_config

-- `headroom != nil && *headroom > 0`, with the value that the branch uses
abbrev pub positive : Option ℤ → Option ℤ
positive none = none
positive (some h) = if ltb_ℤ (pos 0) h then some h else none

-- the bytes with the headroom, before they are rounded to MiB
unfoldable pub memory_bytes : ℤ → Option ℤ → ℤ
memory_bytes b headroom = elim (positive headroom) [
  | none ↦ b
  | some h ↦ quot (int64 (b *ℤ int32 (pos 100 +ℤ h))) 100
]

module _ {F : Type 0} ⦃fl : Floats F⦄ where
  unfoldable pub percentile_quantile : Option ℤ → F
  percentile_quantile none = fl.div (fl.of_int (pos default_percentile)) (fl.of_int (pos 100))
  percentile_quantile (some p) = fl.div (fl.of_int p) (fl.of_int (pos 100))

  unfoldable pub cpu_millicores : F → Option ℤ → ℤ
  cpu_millicores v headroom =
      let milli_cores = fl.mul v (fl.of_int (pos 1000)) in
      let raised : F = elim (positive headroom) [
        | none ↦ milli_cores
        | some h ↦
            fl.mul milli_cores
              (fl.add (fl.of_int (pos 1)) (fl.div (fl.of_int h) (fl.of_int (pos 100))))
      ] in
      max_ℤ (fl.to_int (fl.ceil raised)) (pos min_cpu_millicores)

unfoldable pub memory_mib : ℤ → ℤ
memory_mib b =
    max_ℤ (quot (int64 (int64 (b +ℤ pos mebibyte) -ℤ pos 1)) mebibyte) (pos min_memory_mib)

module _ {Q : Type 0} ⦃qu : Quantities Q⦄ where
  unfoldable pub min_cpu_request : Q
  min_cpu_request = qu.new_milli_quantity (pos min_cpu_millicores) decimal_si

  unfoldable pub min_memory_request : Q
  min_memory_request = qu.new_quantity (pos (min_memory_mib * mebibyte)) binary_si

  -- The resource's value in the list: an absent or zero one is none.
  unfoldable pub of : ResourceKind → ResourceList Q → Option Q
  unfolding ResourceKind-discrete
  of res rl = elim (lookup ResourceKind-discrete res rl) [
    | none ↦ none
    | some q ↦ if is_zero_quantity q then none else some q
  ]

  raise_to : Q → Option Q → Q
  raise_to q none = q
  raise_to q (some m) = if less q m then m else q

  cap_at : Q → Option Q → Q
  cap_at q none = q
  cap_at q (some m) = if less m q then m else q

  -- The maximum wins a conflict.
  unfoldable pub clamp : Q → Option Q → Option Q → Q
  unfolding raise_to cap_at
  clamp q min_q max_q = cap_at (raise_to q min_q) max_q

module _ {F Q : Type 0} ⦃fl : Floats F⦄ ⦃qu : Quantities Q⦄ where
  unfoldable pub value : ResourceKind → Q → F
  value cpu q = fl.div (fl.of_int (pos (qu.milli_value q))) (fl.of_int (pos 1000))
  value memory q = fl.of_int (pos (qu.value q))

  unfoldable pub quantity : ResourceKind → F → Q
  quantity cpu v =
      qu.new_nano_quantity (fl.to_int (fl.round (fl.mul v (fl.of_int (pos 1_000_000_000)))))
  quantity memory v = qu.new_quantity (fl.to_int v) binary_si

  unfoldable pub with_headroom : ResourceKind → F → Option ℤ → Q
  unfolding cpu_millicores memory_bytes memory_mib
  with_headroom cpu v headroom = qu.new_milli_quantity (cpu_millicores v headroom) decimal_si
  with_headroom memory v headroom =
      qu.new_quantity (int64 (memory_mib (memory_bytes (fl.to_int v) headroom) *ℤ pos mebibyte))
        binary_si
