-- ===== src/Patcher/Ordering.antt =====
-- internal/workload/patcher.go: the order in which a pass takes the pods of a workload.
use Prim.Native.Char.{code}
use Prim.Native.Nat.{Ordering, compare as compare_ℕ}
use Prim.Native.String.{compare}
use k8s_sustain.Prelude.{
  sort_stable, ℕ, ◌+◌, ◌-◌, ◌*◌, Bool, ◌&&◌, Option, none, some, List, [], ◌∷◌, String, any, leb,
  ◌==◌, if◌then◌else◌,
}
use k8s_sustain.Prelude.Int.{max_int64}
use k8s_sustain.Patcher.Pods.{is_owned_by_kind, Pod}

-- The code points of a name.
abbrev pub codes : String → List ℕ
codes String.[] = []
codes (String.◌∷◌ c s) = code c ∷ codes s

-- What stands after the last dash, where there is one.
unfoldable pub after_last_dash : List ℕ → Option (List ℕ)
after_last_dash [] = none
after_last_dash (c ∷ cs) = elim (after_last_dash cs) [
  | some rest ↦ some rest
  | none ↦ if c == b'-' then some cs else none
]

abbrev is_digit : ℕ → Bool
is_digit c = leb b'0' c && leb c b'9'

-- Decimal digits, read onto the number so far.
unfoldable pub digits : ℕ → List ℕ → Option ℕ
digits n [] = some n
digits n (c ∷ cs) = let rest = digits (n * 10 + (c - b'0')) cs in if is_digit c then rest else none

abbrev within_int64 : Option ℕ → Option ℕ
within_int64 none = none
within_int64 (some n) = if leb n max_int64 then some n else none

-- `strconv.Atoi` of a text that starts with no minus sign.
unfoldable pub atoi : List ℕ → Option ℕ
unfolding digits
atoi [] = none
atoi (c ∷ []) = within_int64 (digits 0 (c ∷ []))
atoi (c ∷ d ∷ cs) = within_int64 (if c == b'+' then digits 0 (d ∷ cs) else digits 0 (c ∷ d ∷ cs))

abbrev ordinal_after : Option (List ℕ) → Option ℕ
ordinal_after none = none
ordinal_after (some cs) = atoi cs

module _ {Q : Type 0} where
  unfoldable pub any_owned_by_stateful_set : List (Pod Q) → Bool
  unfolding is_owned_by_kind
  any_owned_by_stateful_set pods = any (λ pod. is_owned_by_kind pod.owners "StatefulSet") pods

  unfoldable pub pod_ordinal : Pod Q → Option ℕ
  unfolding after_last_dash atoi
  pod_ordinal pod = ordinal_after (after_last_dash (codes pod.name))

  -- The comparison for a StatefulSet, with the two ordinals.
  abbrev by_ordinals : Option ℕ → Option ℕ → Pod Q → Pod Q → Ordering
  by_ordinals (some oa) (some ob) a b = compare_ℕ ob oa
  by_ordinals _ _ a b = compare b.name a.name

  unfoldable pub by_ordinal : Pod Q → Pod Q → Ordering
  unfolding pod_ordinal
  by_ordinal a b = by_ordinals (pod_ordinal a) (pod_ordinal b) a b

  abbrev pub by_pod_name : Pod Q → Pod Q → Ordering
  by_pod_name a b = compare a.name b.name

  unfoldable pub sort_pods_for_recycle : List (Pod Q) → List (Pod Q)
  unfolding any_owned_by_stateful_set by_ordinal sort_stable
  sort_pods_for_recycle pods =
      if any_owned_by_stateful_set pods
      then sort_stable by_ordinal pods
      else sort_stable by_pod_name pods
