-- ===== src/Common/Bits.antt =====
-- The binary `and` of a number with a mask of ones.
use Prim.Native.Nat.{bit_and, digits, bit_and-bitwise, min}
use native.Mathlib.Nat.{
  mod-lt, mod-eq_of_lt, mod-add-div', add-mul-mod_self_right, zero-mod, one-le-pow, pow-suc,
}
use omni_notify_omni_orb.Common.{
  ℕ, zero, suc, ◌+◌, ◌-◌, ◌*◌, ◌/◌, ◌%◌, ◌^◌, ◌<◌, ◌≤◌, ◌≡◌, refl, sym, ◌∙◌, ap, arith,
}

abbrev low_and : ℕ → ℕ → ℕ → ℕ
low_and n a b = digits (λ b. zero) min n a b

low_and-zero : (n a : ℕ) → low_and n a 0 ≡ 0
low_and-zero zero a = refl
low_and-zero (suc n) zero = refl
low_and-zero (suc n) (suc a) = omega (arith, low_and-zero n (suc a / 2))

-- The rest by an even number, from the half and the last digit.
mod-even : (a p : ℕ) → 0 < p → a % (p * 2) ≡ a / 2 % p * 2 + a % 2
mod-even a p h =
    let below = mod-lt (a / 2) h in
    let whole = mod-add-div' (a / 2) p in
    let twice : a / 2 / p * (p * 2) ≡ a / 2 / p * p * 2 = grind arith in
    let parts : a ≡ a / 2 % p * 2 + a % 2 + a / 2 / p * (p * 2) = omega (arith, whole, twice) in
    let small : a / 2 % p * 2 + a % 2 < p * 2 = omega (arith, below) in
    ap (λ x. x % (p * 2)) parts
    ∙ add-mul-mod_self_right (a / 2 % p * 2 + a % 2) (a / 2 / p) (p * 2)
    ∙ mod-eq_of_lt small

low_and-ones : (n k a : ℕ) → a ≤ n → low_and n a (2 ^ k - 1) ≡ a % 2 ^ k
low_and-ones n zero a h = low_and-zero n a ∙ omega arith
low_and-ones zero (suc k) zero h = sym (zero-mod (2 ^ suc k))
low_and-ones zero (suc k) (suc a) h = absurd (omega (arith, h))
low_and-ones (suc n) (suc k) zero h = sym (zero-mod (2 ^ suc k))
low_and-ones (suc n) (suc k) (suc a) h =
    let some : 1 ≤ 2 ^ k = one-le-pow k 2 (omega arith) in
    let half : (2 ^ suc k - 1) / 2 ≡ 2 ^ k - 1 = omega (arith, some) in
    let odd : (2 ^ suc k - 1) % 2 ≡ 1 = omega (arith, some) in
    let digit : min (suc a % 2) 1 ≡ suc a % 2 = omega arith in
    ap (λ b. low_and n (suc a / 2) b * 2 + min (suc a % 2) ((2 ^ suc k - 1) % 2)) half
    ∙ ap (λ r. low_and n (suc a / 2) (2 ^ k - 1) * 2 + min (suc a % 2) r) odd
    ∙ ap (λ x. x * 2 + min (suc a % 2) 1) (low_and-ones n k (suc a / 2) (omega (arith, h)))
    ∙ ap (λ r. suc a / 2 % 2 ^ k * 2 + r) digit
    ∙ sym (mod-even (suc a) (2 ^ k) some)
    ∙ ap (λ m. suc a % m) (sym (pow-suc 2 k))

-- `a & (2 ^ k - 1)` is the rest of the division by 2 ^ k.
pub bit_and-ones : (a k : ℕ) → bit_and a (2 ^ k - 1) ≡ a % 2 ^ k
bit_and-ones a k = bit_and-bitwise a (2 ^ k - 1) ∙ low_and-ones a k a (omega arith)
