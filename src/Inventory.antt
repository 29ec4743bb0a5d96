-- ===== src/Inventory.antt =====
-- internal/inventory: the workload objects of the cluster as identities, which the controller and the
-- dashboard read.
pub mod Settling
pub mod Building
pub mod Taking
mod Examples
pub mod Agreement
pub mod Union
pub mod NewestFirst
pub mod Newest
pub mod Whole
use k8s_sustain.Prelude.{Bool, true, false, Option, List, [], ◌∷◌, String}
use k8s_sustain.Prelude.Time.{Time}
use k8s_sustain.OomWatch.{Identity as Key}
use k8s_sustain.Api.{Container}
use k8s_sustain.WlrCache.{Object}

-- A live object: its name and its creation, the Policy that governs it, empty where none does, and
-- its containers.
pub record Member (Q : Type 0) : Type 0 where
  pub name : String
  pub created : Time
  pub policy : String
  pub containers : List (Container Q)
  pub init_containers : List (Container Q)

pub record Identity (F Q : Type 0) : Type 0 where
  pub key : Key
  pub members : List (Member Q)
  pub containers : List (Container Q)
  pub init_containers : List (Container Q)
  pub since : Time
  pub policy : String
  pub conflicted : Bool
  pub recommendation : Option (Object F Q)

abbrev pub is_empty : {A : Type 0} → List A → Bool
is_empty [] = true
is_empty (a ∷ rest) = false
