-- ===== src/Base/Double.antt =====
-- What the code does with `float64`, over any carrier. The IEEE arithmetic itself is a parameter.
use Prim.Native.Nat.{ℕ, ◌+◌, ◌-◌, ◌*◌, ◌/◌, ◌^◌}
use mathlib.Core.Path.{◌≡◌}
use mathlib.Core.Bool.{Bool, true, false}
use mathlib.Core.Option.{Option, none, some}
use native.Mathlib.Omega.{arith}
use readsync.Base.Tests.{ltb, leb}

-- `lit n k` is the constant n / 10^k, `lt` and `le` are false wherever a NaN stands.
pub record Double (W : Type 0) : Type 0 where
  pub lit : ℕ → ℕ → W
  pub lt : W → W → Bool
  pub le : W → W → Bool
  pub add : W → W → W
  pub sub : W → W → W
  pub mul : W → W → W
  pub div : W → W → W
  pub of_nat : ℕ → W

-- The facts of IEEE 754 comparison that theorems use.
pub record IsOrdered (W : Type 0) ⦃d : Double W⦄ : Type 0 where
  pub lt_irrefl : (x : W) → d.lt x x ≡ false
  pub one-not-lt-zero : d.lt (d.lit 1 0) (d.lit 0 0) ≡ false
  pub lt_asymm : (x y : W) → d.lt x y ≡ true → d.lt y x ≡ false
  pub le_of_lt : (x y : W) → d.lt x y ≡ true → d.le x y ≡ true
  pub lt_le_asymm : (x y : W) → d.lt x y ≡ true → d.le y x ≡ false

-- Thousandths, with `none` for NaN: a carrier that meets the laws, for concrete runs.
abbrev pub Thousandths : Type 0
Thousandths = Option ℕ

abbrev both {ℓ} : {A : Type ℓ} → A → (ℕ → ℕ → A) → Thousandths → Thousandths → A
both other f none y = other
both other f (some a) none = other
both other f (some a) (some b) = f a b

instance abbrev pub thousandths : Double Thousandths
thousandths = record {
  lit = λ n k. some (n * 1000 / 10 ^ k);
  lt = both false ltb;
  le = both false leb;
  add = both none (λ a b. some (a + b));
  sub = both none (λ a b. some (a - b));
  mul = both none (λ a b. some (a * b / 1000));
  div = both none (λ a b. some (a * 1000 / b));
  of_nat = λ n. some (n * 1000);
}

pub Thousandths-IsOrdered : IsOrdered Thousandths
Thousandths-IsOrdered = ground arith
