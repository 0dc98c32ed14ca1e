-- ===== src/TimeWrappers/Tests.antt =====
-- Runs of the times (include/RDITimeWrappers.h).
use omni_notify_omni_orb.Common.{◌+◌, ◌*◌, ◌/◌, ◌≡◌, arith, refl, u32_mod, add64}
use omni_notify_omni_orb.TimeWrappers.{
  set_rel_mins, get_cosbase_secs_nanosecs, set_posixbase_secs_nanosecs, get_posixbase_secs_nanosecs,
  get_posixbase_secs_msecs, low, high, set_delta,
}
use omni_notify_omni_orb.Common.Int.{negsuc}
use omni_notify_omni_orb.TimeWrappers.Utc.{UtcT, add, sub, greenwich_time, sub-add}
use omni_notify_omni_orb.TimeWrappers.Trips.{get_posixbase-set_posixbase, low-high, set_delta-sym}

test_mins : get_cosbase_secs_nanosecs (set_rel_mins 2) ≡ (120, 0)
unfolding get_cosbase_secs_nanosecs set_rel_mins
test_mins = refl

get_posixbase-set_posixbase_example :
    (get_posixbase_secs_nanosecs (set_posixbase_secs_nanosecs 1046000000 123456789)
      ≡ (1046000000, 123456789 / 100 * 100))
    × (get_posixbase_secs_msecs (set_posixbase_secs_nanosecs 1046000000 123456789)
        ≡ (1046000000, 123456789 / 1000000))
get_posixbase-set_posixbase_example =
    get_posixbase-set_posixbase 1046000000 123456789 (omega arith) (omega arith)

low-high_example : high 122192928000000000 * u32_mod + low 122192928000000000 ≡ 122192928000000000
low-high_example = low-high 122192928000000000 (omega arith)

set_delta-sym_example : (set_delta 50 20 ≡ set_delta 20 50) × (20 + set_delta 50 20 ≡ 50)
set_delta-sym_example = set_delta-sym 50 20 (omega arith) (omega arith)

abbrev late_time : UtcT
late_time = record { time = 18446744073709551615; inacclo = 0; inacchi = 0; tdf = negsuc 59 }

sub-add_example :
    ((sub (add late_time 100) 100).time ≡ 18446744073709551615)
    × (greenwich_time (add late_time 100) ≡ add64 (greenwich_time late_time) 100)
sub-add_example = sub-add late_time 100 (omega arith) (omega arith)
