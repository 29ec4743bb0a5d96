-- ===== src/Ledger/Errors.antt =====
-- internal/ledger/ledger.go: which errors no retry helps against. An error is its tree: whether it
-- is ErrRefused, the code of its API status if it has one, its text, and what it unwraps to.
use k8s_sustain.Prelude.{
  ℕ, Bool, false, ◌&&◌, ◌||◌, not, Option, none, some, String, leb, ltb, ◌==◌,
}

mutual
  pub data GoError : Type 0 where
    node : Bool → Option ℕ → String → Unwrapped → GoError

  pub data Unwrapped : Type 0 where
    nothing : Unwrapped
    wrapped : GoError → Unwrapped
    joined : GoErrors → Unwrapped

  pub data GoErrors : Type 0 where
    nil : GoErrors
    cons : GoError → GoErrors → GoErrors

abbrev pub text_of : Option GoError → String
text_of none = "<nil>"
text_of (some (node is_refused code text inner)) = text

-- A code from 400 to 499 that is not 404, 409 or 429.
abbrev pub is_rejection : Option ℕ → Bool
is_rejection none = false
is_rejection (some code) =
    leb 400 code && ltb code 500 && not (code == 404) && not (code == 409) && not (code == 429)

-- `errors.Is(err, ErrRefused)`
unfoldable mutual
  pub is_refusal : GoError → Bool
  is_refusal (node is_refused code text inner) = is_refused || refusal_within inner

  pub refusal_within : Unwrapped → Bool
  refusal_within nothing = false
  refusal_within (wrapped e) = is_refusal e
  refusal_within (joined es) = refusal_among es

  pub refusal_among : GoErrors → Bool
  refusal_among nil = false
  refusal_among (cons e es) = is_refusal e || refusal_among es

unfoldable mutual
  pub rejected : GoError → Bool
  rejected (node is_refused code text inner) = is_rejection code || rejected_within inner

  pub rejected_within : Unwrapped → Bool
  rejected_within nothing = false
  rejected_within (wrapped e) = rejected e
  rejected_within (joined es) = rejected_among es

  pub rejected_among : GoErrors → Bool
  rejected_among nil = false
  rejected_among (cons e es) = rejected e || rejected_among es

unfoldable pub permanent_error : Option GoError → Bool
unfolding is_refusal rejected
permanent_error none = false
permanent_error (some e) = is_refusal e || rejected e
