-- ===== src/Lab/Numbers.antt =====
-- The measured numbers of the laboratory are floating-point, which is not modelled: the operations
-- that the program uses of them are a parameter. `natural` is an instance over whole numbers.
use newport_ms.Base.{ℕ, ◌-◌, ◌*◌, ◌/◌, String, Bool, true, ltb, leb, ◌==◌}

pub record Numbers : Type 1 where
  pub Number : Type 0
  pub less : Number → Number → Bool  -- `a < b`
  pub is_finite : Number → Bool  -- `Number.isFinite(a)`
  pub minus : Number → Number → Number  -- `a - b`
  pub abs : Number → Number  -- `Math.abs(a)`
  pub is_zero : Number → Bool  -- `a === 0`
  pub percent : Number → Number → Number  -- `Math.round((a / b) * 10_000) / 100`
  pub at_least : Number → ℕ → Bool  -- `a >= n`
  pub parse : String → Number  -- `Number(s)`
  pub show : Number → String  -- `String(a)`

abbrev pub natural : Numbers
natural = record {
  Number = ℕ;
  less = ltb;
  is_finite = λ a. true;
  minus = λ a b. a - b;
  abs = λ a. a;
  is_zero = λ a. a == 0;
  percent = λ a b. (a * 100) / b;
  at_least = λ a n. leb n a;
  parse = λ s. 0;
  show = λ a. "";
}
