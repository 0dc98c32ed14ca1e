-- ===== src/TimeWrappers/Utc.antt =====
-- RDI_UtcT, a time with its inaccuracy and its time zone (include/RDITimeWrappers.h,
-- lib/RDITimeWrappers.cc).
use omni_notify_omni_orb.Common.{
  ℕ, ◌+◌, ◌-◌, ◌<◌, ◌≡◌, ltb, ◌==◌, Bool, Option, none, some, add64, sub64, mul64, u64_mod, arith,
}
use omni_notify_omni_orb.Common.Int.{ℤ, pos, negsuc}
use omni_notify_omni_orb.TimeWrappers.{
  set_posixbase_secs_nanosecs, set_cosbase_secs_nanosecs, get_cosbase_secs_nanosecs,
  get_posixbase_secs_nanosecs,
}

-- `tdf` is in minutes.
pub record UtcT : Type 0 where
  pub time : ℕ
  pub inacclo : ℕ
  pub inacchi : ℕ
  pub tdf : ℤ

-- The clock of RDI_ServerQoS.
pub record LocalClock : Type 0 where
  pub local_clock_inacc_lo : ℕ
  pub local_clock_inacc_hi : ℕ
  pub local_clock_tdf : ℤ

-- RDI_TDF2ULL: a negative number of minutes wraps.
unfoldable pub tdf2ull : ℤ → ℕ
unfolding mul64
tdf2ull (pos n) = mul64 n 600000000
tdf2ull (negsuc n) = mul64 (u64_mod - (n + 1)) 600000000

unfoldable pub greenwich_time : UtcT → ℕ
unfolding add64 tdf2ull
greenwich_time u = add64 u.time (tdf2ull u.tdf)

-- RDI_TBUtcT_LT, RDI_TBUtcT_GT and RDI_TBUtcT_EQ.
unfoldable pub utct_lt : UtcT → UtcT → Bool
unfolding greenwich_time
utct_lt t1 t2 = ltb (greenwich_time t1) (greenwich_time t2)

unfoldable pub utct_gt : UtcT → UtcT → Bool
unfolding greenwich_time
utct_gt t1 t2 = ltb (greenwich_time t2) (greenwich_time t1)

unfoldable pub utct_eq : UtcT → UtcT → Bool
unfolding greenwich_time
utct_eq t1 t2 = greenwich_time t1 == greenwich_time t2

unfoldable pub add : UtcT → ℕ → UtcT
unfolding add64
add u rel_time = record u { time = add64 u.time rel_time }

unfoldable pub sub : UtcT → ℕ → UtcT
unfolding sub64
sub u rel_time = record u { time = sub64 u.time rel_time }

-- The local clock's inaccuracy and zone, or what stands for them without a server.
unfoldable pub with_clock : ℕ → Option LocalClock → UtcT
with_clock t none = record { time = t; inacclo = 0; inacchi = 0; tdf = pos 300 }
with_clock t (some q) = record {
  time = t;
  inacclo = q.local_clock_inacc_lo;
  inacchi = q.local_clock_inacc_hi;
  tdf = q.local_clock_tdf;
}

unfoldable pub set_local_posixbase : Option LocalClock → ℕ → ℕ → UtcT
unfolding with_clock set_posixbase_secs_nanosecs
set_local_posixbase q s n = with_clock (set_posixbase_secs_nanosecs s n) q

unfoldable pub set_local_cosbase : Option LocalClock → ℕ → ℕ → UtcT
unfolding with_clock set_cosbase_secs_nanosecs
set_local_cosbase q s n = with_clock (set_cosbase_secs_nanosecs s n) q

unfoldable pub set_gmt_posixbase : ℕ → ℕ → UtcT
unfolding set_posixbase_secs_nanosecs
set_gmt_posixbase s n = record {
  time = set_posixbase_secs_nanosecs s n;
  inacclo = 0;
  inacchi = 0;
  tdf = pos 0;
}

unfoldable pub set_gmt_cosbase : ℕ → ℕ → UtcT
unfolding set_cosbase_secs_nanosecs
set_gmt_cosbase s n = record {
  time = set_cosbase_secs_nanosecs s n;
  inacclo = 0;
  inacchi = 0;
  tdf = pos 0;
}

unfoldable pub get_local_cosbase : UtcT → ℕ × ℕ
unfolding get_cosbase_secs_nanosecs
get_local_cosbase u = get_cosbase_secs_nanosecs u.time

unfoldable pub get_gmt_cosbase : UtcT → ℕ × ℕ
unfolding get_cosbase_secs_nanosecs greenwich_time
get_gmt_cosbase u = get_cosbase_secs_nanosecs (greenwich_time u)

unfoldable pub get_local_posixbase : UtcT → ℕ × ℕ
unfolding get_posixbase_secs_nanosecs
get_local_posixbase u = get_posixbase_secs_nanosecs u.time

unfoldable pub get_gmt_posixbase : UtcT → ℕ × ℕ
unfolding get_posixbase_secs_nanosecs greenwich_time
get_gmt_posixbase u = get_posixbase_secs_nanosecs (greenwich_time u)

-- A time below 2 ^ 64 to which any relative time below 2 ^ 64 is added, past the end of the range
-- too, and from which it is taken again, is the same; and the Greenwich time moves by as much.
pub sub-add :
    (u : UtcT) (rel_time : ℕ)
    → u.time < u64_mod
    → rel_time < u64_mod
    → ((sub (add u rel_time) rel_time).time ≡ u.time)
      × (greenwich_time (add u rel_time) ≡ add64 (greenwich_time u) rel_time)
unfolding add sub greenwich_time add64 sub64
sub-add u rel_time p q = (omega (arith, p, q), omega arith)
