-- ===== src/Prelude/Masks.antt =====
-- Masks on a byte, by checking every byte.
use Prim.Native.Nat.{ℕ, zero, suc, ◌*◌, ◌/◌, ◌%◌, ◌<◌, bit_and}
use mathlib.Core.Path.{◌≡◌, refl}
use mathlib.Core.Bool.{Bool, true, ◌&&◌}
use native.Mathlib.Omega.{arith}
use sartoriuslib.Prelude.Tests.{◌==◌, ==_iff}

-- Whether a test passes on each number below a bound.
pub all_below : ℕ → (ℕ → Bool) → Bool
all_below zero test = true
all_below (suc bound) test = test bound && all_below bound test

pub all_below_sound :
    (bound : ℕ) (test : ℕ → Bool) (byte : ℕ)
    → all_below bound test ≡ true
    → byte < bound
    → test byte ≡ true
unfolding all_below
all_below_sound zero test byte passed below = absurd (omega arith)
all_below_sound (suc bound) test byte passed below = ground (arith, all_below_sound bound test byte)

-- A law of one variable that holds of every byte.
byte_law : (f g : ℕ → ℕ) (x : ℕ) → all_below 256 (λ b. f b == g b) ≡ true → x < 256 → f x ≡ g x
byte_law f g x table h = (==_iff (f x) (g x)).0 (all_below_sound 256 (λ b. f b == g b) x table h)

pub mask_0f : (x : ℕ) → x < 256 → bit_and x 0x0f ≡ x % 16
unfolding all_below
mask_0f x h = byte_law (λ b. bit_and b 0x0f) (λ b. b % 16) x refl h

pub mask_f0 : (x : ℕ) → x < 256 → bit_and x 0xf0 ≡ x / 16 * 16
unfolding all_below
mask_f0 x h = byte_law (λ b. bit_and b 0xf0) (λ b. b / 16 * 16) x refl h

pub mask_3f : (x : ℕ) → x < 256 → bit_and x 0x3f ≡ x % 64
unfolding all_below
mask_3f x h = byte_law (λ b. bit_and b 0x3f) (λ b. b % 64) x refl h

pub mask_c0 : (x : ℕ) → x < 256 → bit_and x 0xc0 ≡ x / 64 * 64
unfolding all_below
mask_c0 x h = byte_law (λ b. bit_and b 0xc0) (λ b. b / 64 * 64) x refl h

pub mask_08 : (x : ℕ) → x < 256 → bit_and x 0x08 ≡ x / 8 % 2 * 8
unfolding all_below
mask_08 x h = byte_law (λ b. bit_and b 0x08) (λ b. b / 8 % 2 * 8) x refl h

pub mask_10 : (x : ℕ) → x < 256 → bit_and x 0x10 ≡ x / 16 % 2 * 16
unfolding all_below
mask_10 x h = byte_law (λ b. bit_and b 0x10) (λ b. b / 16 % 2 * 16) x refl h

pub mask_40 : (x : ℕ) → x < 256 → bit_and x 0x40 ≡ x / 64 % 2 * 64
unfolding all_below
mask_40 x h = byte_law (λ b. bit_and b 0x40) (λ b. b / 64 % 2 * 64) x refl h

pub mask_80 : (x : ℕ) → x < 256 → bit_and x 0x80 ≡ x / 128 * 128
unfolding all_below
mask_80 x h = byte_law (λ b. bit_and b 0x80) (λ b. b / 128 * 128) x refl h
