-- ===== src/TimeWrappers.antt =====
-- RDI_TimeT, a time in units of 100 nanoseconds (include/RDITimeWrappers.h). An unsigned
-- long has 64 bits, as on 64 bit Unix; TIMEBASE_NOLONGLONG is not defined.
pub mod Trips
pub mod Utc
pub mod Tests
use omni_notify_omni_orb.Common.{
  ℕ, ◌+◌, ◌-◌, ◌*◌, ◌/◌, ◌%◌, ◌^◌, leb, Bool, if◌then◌else◌, add64, sub64, mul64, u32_mod,
}

abbrev pub rdi_1e7 : ℕ
rdi_1e7 = 10000000

abbrev pub posix2cos_conversion : ℕ
posix2cos_conversion = 122192928000000000

unfoldable pub set_rel_msecs : ℕ → ℕ
unfolding mul64
set_rel_msecs msecs = mul64 msecs 10000

unfoldable pub set_rel_secs : ℕ → ℕ
unfolding mul64
set_rel_secs secs = mul64 secs rdi_1e7

unfoldable pub set_rel_mins : ℕ → ℕ
unfolding mul64
set_rel_mins mins = mul64 (mul64 mins 60) rdi_1e7

-- get_rel_secs_nanosecs and get_cosbase_secs_nanosecs, which are the same.
unfoldable pub get_cosbase_secs_nanosecs : ℕ → ℕ × ℕ
get_cosbase_secs_nanosecs time = (time / rdi_1e7, time % rdi_1e7 * 100)

unfoldable pub set_cosbase_secs_nanosecs : ℕ → ℕ → ℕ
unfolding mul64 add64
set_cosbase_secs_nanosecs s n = add64 (mul64 s rdi_1e7) (n / 100)

unfoldable pub set_posixbase_secs_nanosecs : ℕ → ℕ → ℕ
unfolding mul64 add64
set_posixbase_secs_nanosecs s n = add64 (add64 (mul64 s rdi_1e7) (n / 100)) posix2cos_conversion

unfoldable pub get_posixbase_secs_nanosecs : ℕ → ℕ × ℕ
unfolding sub64
get_posixbase_secs_nanosecs time =
    let tprime = sub64 time posix2cos_conversion in (tprime / rdi_1e7, tprime % rdi_1e7 * 100)

unfoldable pub get_posixbase_secs_msecs : ℕ → ℕ × ℕ
unfolding sub64
get_posixbase_secs_msecs time =
    let tprime = sub64 time posix2cos_conversion in (tprime / rdi_1e7, tprime % rdi_1e7 / 10000)

unfoldable pub low : ℕ → ℕ
unfolding mul64
low time = mul64 time u32_mod / u32_mod % u32_mod

unfoldable pub high : ℕ → ℕ
high time = time / u32_mod % u32_mod

unfoldable pub set_delta : ℕ → ℕ → ℕ
unfolding sub64
set_delta lt rt = if leb rt lt then sub64 lt rt else sub64 rt lt
