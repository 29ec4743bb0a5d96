-- ===== src/Shards/Examples.antt =====
-- The shards of three candidates, one of them without a name.
use k8s_sustain.Prelude.{◌≡◌, List, [], ◌∷◌, All}
use k8s_sustain.Prelude.Int.{pos}
use k8s_sustain.Shards.{ShardCandidate}
use k8s_sustain.Shards.Building.{build_shards, at_least_one}
use k8s_sustain.Shards.Coverage
use k8s_sustain.Shards.Counting.{in_shards, in_candidates}
use k8s_sustain.Shards.Fitting
use k8s_sustain.Shards.Fitting.{IsCandidate}
use k8s_sustain.Shards.Limits.{Fits}

abbrev cands : List ShardCandidate
cands =
    record { identity = ("shop", ("Deployment", "cart")); containers = pos 2 }
    ∷ record { identity = ("shop", ("Deployment", "")); containers = pos 1 }
    ∷ record { identity = ("shop", ("Deployment", "web")); containers = pos 1 }
    ∷ []

build_shards-in_shards_example :
    in_shards ("shop", ("Deployment", "web")) (build_shards cands (pos 10) (pos 20)).0
    ≡ in_candidates ("shop", ("Deployment", "web")) cands
build_shards-in_shards_example =
    Coverage.build_shards-in_shards cands (pos 10) (pos 20) ("shop", ("Deployment", "web"))

build_shards-Fits_example :
    All
      (Fits (IsCandidate cands (at_least_one (pos 10))) (pos 20))
      (build_shards cands (pos 10) (pos 20)).0
build_shards-Fits_example = Fitting.build_shards-Fits cands (pos 10) (pos 20)
