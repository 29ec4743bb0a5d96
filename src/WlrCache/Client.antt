-- ===== src/WlrCache/Client.antt =====
-- The Kubernetes API that internal/wlrcache writes through: controller-runtime's client is a
-- parameter, its calls steps on a state S that other writers may move too.
use k8s_sustain.Prelude.{Option, List, String}
use k8s_sustain.WlrCache.{Object}

-- The errors that the code tells apart.
pub data ApiError : Type 0 where
  not_found already_exists conflict : ApiError
  other : String → ApiError

pub data Reply {ℓ} (A : Type ℓ) : Type ℓ where
  answer : A → Reply A
  refused : ApiError → Reply A

-- A namespace and a name.
abbrev pub ObjectKey : Type 0
ObjectKey = String × String

pub record Client (S F Q : Type 0) : Type 0 where
  pub get : ObjectKey → S → S × Reply (Object F Q)
  -- the objects with a policy label, or all of them
  pub list : Option String → S → S × Reply (List (Object F Q))
  -- the names of the Policies
  pub list_policies : S → S × Reply (List String)
  -- these three answer the object as stored
  pub create : Object F Q → S → S × Reply (Object F Q)
  -- the merge patch from the second object to the first
  pub patch : Object F Q → Object F Q → S → S × Reply (Object F Q)
  pub patch_status : Object F Q → Object F Q → S → S × Reply (Object F Q)
  -- a deletion conditioned on the object's UID and resource version
  pub delete : Object F Q → S → S × Reply (Unit {0})

-- The errors that internal/wlrcache returns, around the API's.
pub data Failure : Type 0 where
  not_ensured : Failure
  reading creating claiming patching recording snapshot listing listing_policies deleting :
      ApiError → Failure

pub data Result {ℓ} (A : Type ℓ) : Type ℓ where
  ok : A → Result A
  failed : Failure → Result A

abbrev pub M : Type 0 → Type 0 → Type 0
M S A = S → S × Result A

abbrev pub pure : {S A : Type 0} → A → M S A
pure a s = (s, ok a)

abbrev pub fail : {S A : Type 0} → Failure → M S A
fail e s = (s, failed e)

abbrev pub next : {S A B : Type 0} → Result A → S → (A → M S B) → S × Result B
next (ok a) s f = f a s
next (failed e) s f = (s, failed e)

infixl 5 ◌>>=◌
abbrev pub ◌>>=◌ : {S A B : Type 0} → M S A → (A → M S B) → M S B
◌>>=◌ m f s = next (m s).1 (m s).0 f

abbrev pub wrapped : {A : Type 0} → (ApiError → Failure) → Reply A → Result A
wrapped wrap (answer a) = ok a
wrapped wrap (refused e) = failed (wrap e)

-- A call whose error is returned, wrapped.
abbrev pub attempt : {S A : Type 0} → (ApiError → Failure) → (S → S × Reply A) → M S A
attempt wrap call s = ((call s).0, wrapped wrap (call s).1)
