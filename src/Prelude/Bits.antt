-- ===== src/Prelude/Bits.antt =====
-- The binary digits of a number, and what `|`, `<<` and `>>` of a machine word do to them.
use Prim.Native.Nat.{
  ℕ, zero, suc, ◌+◌, ◌*◌, ◌/◌, ◌%◌, ◌^◌, ◌≤◌, ◌<◌, max, bit_or, digits, bit_or-bitwise,
}
use mathlib.Core.Logic.{◌≢◌}
use mathlib.Core.Path.{◌≡◌, refl, sym, ap, ◌∙◌}
use native.Mathlib.Omega.{arith}
use native.Mathlib.Nat.{
  div-div-eq-div-mul, div-add-mod, mul-add-mod_self_left, mod-eq_of_lt, mod-lt, one-le-pow,
}

pub bit : ℕ → ℕ → ℕ
bit zero x = x % 2
bit (suc i) x = bit i (x / 2)

-- Any count of digits that is no less than the number serves.
digits_enough :
    (stop : ℕ → ℕ) (join : ℕ → ℕ → ℕ) (few many x y : ℕ)
    → x ≤ few
    → few ≤ many
    → digits stop join few x y ≡ digits stop join many x y
digits_enough stop join zero zero zero y h k = refl
digits_enough stop join zero (suc many) zero y h k = refl
digits_enough stop join zero many (suc x) y h k = absurd (omega arith)
digits_enough stop join (suc few) zero x y h k = absurd (omega arith)
digits_enough stop join (suc few) (suc many) zero y h k = refl
digits_enough stop join (suc few) (suc many) (suc x) y h k =
    ap (λ d. d * 2 + join (suc x % 2) (y % 2))
      (digits_enough stop join few many (suc x / 2) (y / 2) (omega arith) (omega arith))

or_nothing : (y : ℕ) → bit_or 0 y ≡ y
or_nothing y = bit_or-bitwise 0 y

-- The lowest digit of `|`, and the others.
or_step : (x y : ℕ) → bit_or x y ≡ bit_or (x / 2) (y / 2) * 2 + max (x % 2) (y % 2)
or_step zero y = omega (arith, or_nothing y, or_nothing (y / 2))
or_step (suc x) y =
    bit_or-bitwise (suc x) y
    ∙ ap (λ d. d * 2 + max (suc x % 2) (y % 2))
        (sym (
            digits_enough (λ b. b) max (suc x / 2) x (suc x / 2) (y / 2) (omega arith)
              (omega arith))
          ∙ sym (bit_or-bitwise (suc x / 2) (y / 2)))

-- `a | b`.
pub bit-bit_or : (i a b : ℕ) → bit i (bit_or a b) ≡ max (bit i a) (bit i b)
unfolding bit
bit-bit_or zero a b = omega (arith, or_step a b)
bit-bit_or (suc i) a b =
    ap (bit i) {x = bit_or a b / 2} {y = bit_or (a / 2) (b / 2)} (omega (arith, or_step a b))
    ∙ bit-bit_or i (a / 2) (b / 2)

pub bit-small : (i x : ℕ) → bit i x ≤ 1
unfolding bit
bit-small zero x = omega arith
bit-small (suc i) x = bit-small i (x / 2)

-- `1 << i`.
pub bit-power_same : (i : ℕ) → bit i (2 ^ i) ≡ 1
unfolding bit
bit-power_same zero = omega arith
bit-power_same (suc i) = ap (bit i) {x = 2 ^ suc i / 2} {y = 2 ^ i} (grind arith) ∙ bit-power_same i

pub bit-zero : (i : ℕ) → bit i 0 ≡ 0
unfolding bit
bit-zero zero = omega arith
bit-zero (suc i) = bit-zero i

double_power : (b : ℕ) → 2 ^ suc b ≡ 2 * 2 ^ b
double_power b = grind arith

-- `x << b` before it is cut to its word.
pub bit-shifted : (b j k x : ℕ) → b + j ≡ k → bit k (x * 2 ^ b) ≡ bit j x
unfolding bit
bit-shifted zero j k x e =
    ap (λ i. bit i (x * 2 ^ 0)) {x = k} {y = j} (omega arith)
    ∙ ap (bit j) {x = x * 2 ^ 0} {y = x} (omega arith)
bit-shifted (suc b) j zero x e = absurd (omega arith)
bit-shifted (suc b) j (suc k) x e =
    ap (bit k) {x = x * 2 ^ suc b / 2} {y = x * 2 ^ b} (grind arith)
    ∙ bit-shifted b j k x (omega arith)

even : (x b : ℕ) → x * 2 ^ suc b ≡ 2 * (x * 2 ^ b)
even x b = grind arith

pub bit-shifted_low : (b j x : ℕ) → j < b → bit j (x * 2 ^ b) ≡ 0
unfolding bit
bit-shifted_low zero j x h = absurd (omega arith)
bit-shifted_low (suc b) zero x h = omega (arith, even x b)
bit-shifted_low (suc b) (suc j) x h =
    ap (bit j) {x = x * 2 ^ suc b / 2} {y = x * 2 ^ b} (omega (arith, even x b))
    ∙ bit-shifted_low b j x (omega arith)

-- `x >> c`.
pub bit-halved : (c j k x : ℕ) → c + j ≡ k → bit j (x / 2 ^ c) ≡ bit k x
unfolding bit
bit-halved zero j k x e =
    ap (bit j) {x = x / 2 ^ 0} {y = x} (omega arith)
    ∙ ap (λ i. bit i x) {x = j} {y = k} (omega arith)
bit-halved (suc c) j zero x e = absurd (omega arith)
bit-halved (suc c) j (suc k) x e =
    ap (λ d. bit j (x / d)) (double_power c)
    ∙ ap (bit j) (sym (div-div-eq-div-mul x 2 (2 ^ c)))
    ∙ bit-halved c j k (x / 2) (omega arith)

cut_step : (p x : ℕ) → 0 < p → x % (2 * p) ≡ 2 * (x / 2 % p) + x % 2
cut_step p x h =
    ap (λ y. y % (2 * p)) {x = x} {y = 2 * p * (x / 2 / p) + (2 * (x / 2 % p) + x % 2)}
      (grind (arith, div-add-mod (x / 2) p))
    ∙ mul-add-mod_self_left (2 * p) (x / 2 / p) (2 * (x / 2 % p) + x % 2)
    ∙ mod-eq_of_lt (omega (arith, mod-lt (x / 2) h))

-- A word of `m` bits.
pub bit-cut : (m j x : ℕ) → j < m → bit j (x % 2 ^ m) ≡ bit j x
unfolding bit
bit-cut zero j x h = absurd (omega arith)
bit-cut (suc m) zero x h =
    ap (λ d. x % d % 2) (double_power m)
    ∙ omega (arith, cut_step (2 ^ m) x (one-le-pow m 2 (omega arith)))
bit-cut (suc m) (suc j) x h =
    ap (λ d. bit j (x % d / 2)) (double_power m)
    ∙ ap (bit j) {x = x % (2 * 2 ^ m) / 2} {y = x / 2 % 2 ^ m}
        (omega (arith, cut_step (2 ^ m) x (one-le-pow m 2 (omega arith))))
    ∙ bit-cut m j (x / 2) (omega arith)

pub bit-cut_high : (m j x : ℕ) → x < 2 ^ m → m ≤ j → bit j x ≡ 0
unfolding bit
bit-cut_high zero zero x small h = omega arith
bit-cut_high zero (suc j) x small h = bit-cut_high zero j (x / 2) (omega arith) (omega arith)
bit-cut_high (suc m) zero x small h = absurd (omega arith)
bit-cut_high (suc m) (suc j) x small h =
    bit-cut_high m j (x / 2) (omega (arith, double_power m)) (omega arith)

-- A bit as it is tested.
pub bit-tested : (i x : ℕ) → x / 2 ^ i % 2 ≡ bit i x
unfolding bit
bit-tested i x = bit-halved i 0 i x (omega arith)

pub bit-power_other : (i j : ℕ) → i ≢ j → bit j (2 ^ i) ≡ 0
unfolding bit
bit-power_other zero zero h = absurd (h refl)
bit-power_other zero (suc j) h = bit-zero j
bit-power_other (suc i) zero h = omega (arith, double_power i)
bit-power_other (suc i) (suc j) h =
    ap (bit j) {x = 2 ^ suc i / 2} {y = 2 ^ i} (omega (arith, double_power i))
    ∙ bit-power_other i j (λ e. h (ap suc e))

pub bit_or-lt : (m a b : ℕ) → a < 2 ^ m → b < 2 ^ m → bit_or a b < 2 ^ m
bit_or-lt zero zero zero h k = omega (arith, or_nothing 0)
bit_or-lt zero (suc a) b h k = absurd (omega arith)
bit_or-lt zero zero (suc b) h k = absurd (omega arith)
bit_or-lt (suc m) a b h k = omega (
  arith,
  or_step a b,
  double_power m,
  bit_or-lt m (a / 2) (b / 2) (omega (arith, double_power m)) (omega (arith, double_power m)),
)

pub power-lt : (i m : ℕ) → i < m → 2 ^ i < 2 ^ m
power-lt zero zero h = absurd (omega arith)
power-lt zero (suc m) h = omega (arith, double_power m, one-le-pow m 2 (omega arith))
power-lt (suc i) zero h = absurd (omega arith)
power-lt (suc i) (suc m) h =
    omega (arith, double_power i, double_power m, power-lt i m (omega arith))
