-- ===== src/Units.antt =====
-- What the recommender takes from outside the repository: the `resource.Quantity` of
-- k8s.io/apimachinery, and the arithmetic of float64 with the `math` calls on it.
-- Definitions take the operations as an instance; theorems take the laws they need of them.
pub mod Model
use k8s_sustain.Prelude.{ℕ, ◌+◌, ◌*◌, ◌/◌, ◌<◌, ◌≤◌, ◌≡◌, Bool, true, false, ◌==◌, if◌then◌else◌}
use k8s_sustain.Prelude.Int.{ℤ, pos}
use Prim.Native.Nat.{compare, Ordering}

-- The two formats that the code tells apart.
pub data Format : Type 0 where
  decimal_si binary_si : Format

-- Values of resources are not negative: the API server refuses a negative request or limit.
pub record Quantities (Q : Type 0) : Type 0 where
  pub cmp : Q → Q → Ordering
  pub value : Q → ℕ
  pub milli_value : Q → ℕ
  pub format : Q → Format
  pub new_quantity : ℤ → Format → Q
  pub new_milli_quantity : ℤ → Format → Q
  pub new_nano_quantity : ℤ → Q
  pub zero_quantity : Q

pub record Floats (F : Type 0) : Type 0 where
  pub of_int : ℤ → F
  -- the float64 nearest to a whole number of thousandths
  pub of_milli : ℕ → F
  pub lt : F → F → Bool
  pub add : F → F → F
  pub mul : F → F → F
  pub div : F → F → F
  pub ceil : F → F
  pub round : F → F
  -- `int64(f)`
  pub to_int : F → ℤ

module _ {Q : Type 0} ⦃qu : Quantities Q⦄ where
  abbrev pub cmp : Q → Q → Ordering
  cmp = qu.cmp

  abbrev pub less : Q → Q → Bool
  less p q = elim (qu.cmp p q) [ Ordering.lt ↦ true | _ ↦ false ]

  abbrev pub same : Q → Q → Bool
  same p q = elim (qu.cmp p q) [ Ordering.eq ↦ true | _ ↦ false ]

  abbrev pub is_zero_quantity : Q → Bool
  is_zero_quantity q = same q qu.zero_quantity

module _ {F : Type 0} ⦃fl : Floats F⦄ where
  abbrev pub lt : F → F → Bool
  lt = fl.lt

  -- Go's built-in `max` and `min` on numbers
  abbrev pub max_f : F → F → F
  max_f a b = if lt a b then b else a

  abbrev pub min_f : F → F → F
  min_f a b = if lt b a then b else a

-- `Cmp` compares the numbers that quantities stand for, here in nano-units.
pub record QuantityOrder (Q : Type 0) ⦃qu : Quantities Q⦄ : Type 0 where
  pub amount : Q → ℕ
  pub cmp-amount : (p q : Q) → qu.cmp p q ≡ compare (amount p) (amount q)

-- The constructors make what they are named for, from a number that is not negative.
pub record QuantityUnits (Q : Type 0) ⦃qu : Quantities Q⦄ (ord : QuantityOrder Q) : Type 0 where
  pub amount-new_quantity :
      (n : ℕ) (f : Format) → ord.amount (qu.new_quantity (pos n) f) ≡ n * 1_000_000_000
  pub amount-new_milli_quantity :
      (n : ℕ) (f : Format) → ord.amount (qu.new_milli_quantity (pos n) f) ≡ n * 1_000_000
  pub amount-zero_quantity : ord.amount qu.zero_quantity ≡ 0

-- IEEE comparison: strict, also in the presence of NaN.
pub record FloatOrder (F : Type 0) ⦃fl : Floats F⦄ : Type 0 where
  pub lt_irrefl : (x : F) → fl.lt x x ≡ false
  pub lt_trans : (x y z : F) → fl.lt x y ≡ true → fl.lt y z ≡ true → fl.lt x z ≡ true
