-- ===== src/TimeWrappers/Trips.antt =====
-- Proofs about times that are set and read again (include/RDITimeWrappers.h).
use omni_notify_omni_orb.Common.{
  ℕ, ◌+◌, ◌-◌, ◌*◌, ◌/◌, ◌%◌, ◌<◌, ◌≤◌, ◌≡◌, leb, Bool-cases, inl, inr, leb→le, le→leb, sym, add64,
  sub64, mul64, u32_mod, u64_mod, ap, arith, refl, ◌∙◌,
}
use omni_notify_omni_orb.TimeWrappers.{
  rdi_1e7, posix2cos_conversion, set_posixbase_secs_nanosecs, get_posixbase_secs_nanosecs,
  get_posixbase_secs_msecs, low, high, set_delta,
}

back :
    (s n : ℕ)
    → s < 1800000000000
    → n < 1000000000
    → sub64 (set_posixbase_secs_nanosecs s n) posix2cos_conversion ≡ s * rdi_1e7 + n / 100
unfolding set_posixbase_secs_nanosecs sub64 mul64 add64
back s n p q = omega (arith, p, q)

secs_of : (s f : ℕ) → f < rdi_1e7 → (s * rdi_1e7 + f) / rdi_1e7 ≡ s
secs_of s f h = omega (arith, h)

rest_of : (s f : ℕ) → f < rdi_1e7 → (s * rdi_1e7 + f) % rdi_1e7 ≡ f
rest_of s f h = omega (arith, h)

both : {a b c d : ℕ} → a ≡ b → c ≡ d → ◌≡◌ {A = ℕ × ℕ} (a, c) (b, d)
both p q = rw (p, q) refl

-- A posix time of s seconds and n nanoseconds, n below one second and s below 1,800,000,000,000: read
-- again it has the same seconds, and the nanoseconds or the milliseconds that are full.
pub get_posixbase-set_posixbase :
    (s n : ℕ)
    → s < 1800000000000
    → n < 1000000000
    → (get_posixbase_secs_nanosecs (set_posixbase_secs_nanosecs s n) ≡ (s, n / 100 * 100))
      × (get_posixbase_secs_msecs (set_posixbase_secs_nanosecs s n) ≡ (s, n / 1000000))
unfolding get_posixbase_secs_nanosecs get_posixbase_secs_msecs
get_posixbase-set_posixbase s n p q =
    let few : n / 100 < rdi_1e7 = omega (arith, q) in
    let time = back s n p q in
    let secs = ap (λ x. x / rdi_1e7) time ∙ secs_of s (n / 100) few in
    let rest = ap (λ x. x % rdi_1e7) time ∙ rest_of s (n / 100) few in
    let msecs : n / 100 / 10000 ≡ n / 1000000 = omega arith in
    (both secs (ap (λ x. x * 100) rest), both secs (ap (λ x. x / 10000) rest ∙ msecs))

-- The two words of a time below 2 ^ 64 make the time.
pub low-high : (time : ℕ) → time < u64_mod → high time * u32_mod + low time ≡ time
unfolding low high mul64
low-high time h = omega (arith, h)

set_delta_later : (lt rt : ℕ) → lt < u64_mod → rt ≤ lt → set_delta lt rt ≡ lt - rt
unfolding set_delta sub64
set_delta_later lt rt h p = rw (le→leb rt lt p) (omega (arith, h, p))

set_delta_earlier : (lt rt : ℕ) → lt < u64_mod → rt ≤ lt → set_delta rt lt ≡ lt - rt
unfolding set_delta sub64
set_delta_earlier lt rt h p = elim (Bool-cases (leb lt rt)) [
  | inl q ↦ let same = leb→le lt rt q in rw q (omega (arith, h, p, same))
  | inr q ↦ rw q (omega (arith, h, p))
]

-- The distance of two times below 2 ^ 64 does not depend on their order, and added to the earlier one
-- it gives the later one.
pub set_delta-sym :
    (lt rt : ℕ)
    → lt < u64_mod
    → rt ≤ lt
    → (set_delta lt rt ≡ set_delta rt lt) × (rt + set_delta lt rt ≡ lt)
set_delta-sym lt rt h p =
    let later = set_delta_later lt rt h p in
    (later ∙ sym (set_delta_earlier lt rt h p), omega (arith, later, p))
