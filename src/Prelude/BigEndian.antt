-- ===== src/Prelude/BigEndian.antt =====
-- `to_be_bytes` and `from_be_bytes` of the unsigned integers: `be w x` is `x` in `w` bytes.
use Prim.Native.Nat.{ℕ, zero, suc, ◌+◌, ◌*◌, ◌/◌, ◌%◌, ◌^◌, ◌<◌}
use mathlib.Core.Path.{◌≡◌, refl, ap, ◌∙◌}
use mathlib.Core.List.{List, [], ◌∷◌, ◌++◌}
use native.Mathlib.Omega.{arith}
use braid.Prelude.Lists.{length, length-append}

abbrev pub Bytes : Type 0
Bytes = List ℕ

unfoldable pub be : ℕ → ℕ → Bytes
be zero x = []
be (suc w) x = be w (x / 256) ++ (x % 256 ∷ [])

from_be_after : ℕ → Bytes → ℕ
from_be_after high [] = high
from_be_after high (b ∷ bs) = from_be_after (high * 256 + b) bs

pub from_be : Bytes → ℕ
from_be bs = from_be_after 0 bs

pub length-be : (w x : ℕ) → length (be w x) ≡ w
unfolding be
length-be zero x = refl
length-be (suc w) x =
    omega (arith, length-append (be w (x / 256)) (x % 256 ∷ []), length-be w (x / 256))

from_be_after-snoc :
    (high : ℕ) (bs : Bytes) (b : ℕ)
    → from_be_after high (bs ++ (b ∷ [])) ≡ from_be_after high bs * 256 + b
unfolding from_be_after
from_be_after-snoc high [] b = refl
from_be_after-snoc high (x ∷ bs) b = from_be_after-snoc (high * 256 + x) bs b

-- A number that fits its bytes is read back.
pub from_be-be : (w x : ℕ) → x < 256 ^ w → from_be (be w x) ≡ x
unfolding be from_be from_be_after
from_be-be zero x h = omega arith
from_be-be (suc w) x h =
    from_be_after-snoc 0 (be w (x / 256)) (x % 256)
    ∙ ap (λ q. q * 256 + x % 256) (from_be-be w (x / 256) (grind arith))
    ∙ omega arith
