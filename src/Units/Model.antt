-- ===== src/Units/Model.antt =====
-- The assumptions on quantities and floats can be met: a quantity is a number of nano-units with
-- a format, and a float is a number of millionths.
use Prim.Native.Nat.{compare}
use k8s_sustain.Prelude.{ℕ, ◌+◌, ◌*◌, ◌/◌, ◌≡◌, refl, true, false, arith, ltb}
use k8s_sustain.Prelude.Int.{pos, pos_part}
use k8s_sustain.Units.{
  Format, decimal_si, Quantities, Floats, QuantityOrder, QuantityUnits, FloatOrder,
}

abbrev pub Amount : Type 0
Amount = ℕ × Format

abbrev pub Fixed : Type 0
Fixed = ℕ

instance abbrev pub amounts : Quantities Amount
amounts = record {
  cmp = λ p q. compare p.0 q.0;
  value = λ q. (q.0 + 999_999_999) / 1_000_000_000;
  milli_value = λ q. (q.0 + 999_999) / 1_000_000;
  format = λ q. q.1;
  new_quantity = λ n f. (pos_part n * 1_000_000_000, f);
  new_milli_quantity = λ n f. (pos_part n * 1_000_000, f);
  new_nano_quantity = λ n. (pos_part n, decimal_si);
  zero_quantity = (0, decimal_si);
}

instance abbrev pub fixed : Floats Fixed
fixed = record {
  of_int = λ n. pos_part n * 1_000_000;
  of_milli = λ n. n * 1_000;
  lt = ltb;
  add = λ a b. a + b;
  mul = λ a b. a * b / 1_000_000;
  div = λ a b. a * 1_000_000 / b;
  ceil = λ a. (a + 999_999) / 1_000_000 * 1_000_000;
  round = λ a. (a + 500_000) / 1_000_000 * 1_000_000;
  to_int = λ a. pos (a / 1_000_000);
}

unfoldable pub amounts_order : QuantityOrder Amount
amounts_order = record { amount = λ q. q.0; cmp-amount = λ p q. refl }

pub amounts_units : QuantityUnits Amount amounts_order
unfolding amounts_order
amounts_units = record {
  amount-new_quantity = λ n f. refl;
  amount-new_milli_quantity = λ n f. refl;
  amount-zero_quantity = refl;
}

ltb_trans : (x y z : ℕ) → ltb x y ≡ true → ltb y z ≡ true → ltb x z ≡ true
ltb_trans x y z p q = ground arith

ltb_irrefl : (x : ℕ) → ltb x x ≡ false
ltb_irrefl x = ground arith

pub fixed_order : FloatOrder Fixed
fixed_order = record { lt_irrefl = ltb_irrefl; lt_trans = ltb_trans }
