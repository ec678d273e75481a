-- ===== src/Rtc/Times.antt =====
-- What the clock of src/rtc.c shows for each format of the CMOS registers.
use meu_so_baremetal.Prelude.{
  ℕ, ◌+◌, ◌*◌, ◌/◌, ◌%◌, ◌<◌, ◌≤◌, ◌≡◌, ◌∙◌, ap, refl, Bool, true, false, arith, if◌then◌else◌,
}
use meu_so_baremetal.Rtc.{
  RtcTime, bit, bcd_to_bin, read_registers, rtc_get_time, rtc_get_time_brt, from_bcd, from_am_pm,
  to_brt,
}

-- Two decimal digits as a binary coded byte.
abbrev pub to_bcd : ℕ → ℕ
to_bcd n = n / 10 * 16 + n % 10

-- A number below 100 comes back from its binary coded byte.
pub bcd_to_bin-to_bcd : (n : ℕ) → n < 100 → bcd_to_bin (to_bcd n) ≡ n
bcd_to_bin-to_bcd n lt = omega arith

-- A register that holds `n` in the format that register B gives.
abbrev pub coded : ℕ → ℕ → ℕ
coded register_b n = if bit 4 register_b then n else to_bcd n

-- The registers show a time in 24-hour format.
pub record Shows (reg : ℕ → ℕ) (t : RtcTime) : Type 0 where
  pub second : (reg 0x00 ≡ coded (reg 0x0B) t.second) × (t.second < 60)
  pub minute : (reg 0x02 ≡ coded (reg 0x0B) t.minute) × (t.minute < 60)
  pub hour : (reg 0x04 ≡ coded (reg 0x0B) t.hour) × (t.hour < 24)
  pub day : (reg 0x07 ≡ coded (reg 0x0B) t.day) × (t.day < 32)
  pub month : (reg 0x08 ≡ coded (reg 0x0B) t.month) × (t.month < 13)
  pub year : (reg 0x09 ≡ coded (reg 0x0B) t.year) × (t.year < 100)
  pub format : bit 2 (reg 0x0B) ≡ true

decoded : (b r n : ℕ) → r ≡ coded b n → n < 100 → (if bit 4 b then r else bcd_to_bin r) ≡ n
decoded b r n e lt = ground (arith, e, lt, bcd_to_bin-to_bcd n lt)

if_fields :
    (c : Bool) (t u : RtcTime)
    → (if c then t else u) ≡ record {
      second = if c then t.second else u.second;
      minute = if c then t.minute else u.minute;
      hour = if c then t.hour else u.hour;
      day = if c then t.day else u.day;
      month = if c then t.month else u.month;
      year = if c then t.year else u.year;
    }
if_fields true t u = refl
if_fields false t u = refl

same_fields :
    {s m h d o y : ℕ} {t : RtcTime}
    → s ≡ t.second
    → m ≡ t.minute
    → h ≡ t.hour
    → d ≡ t.day
    → o ≡ t.month
    → y ≡ t.year
    → ◌≡◌ {A = RtcTime}
        (record { second = s; minute = m; hour = h; day = d; month = o; year = y })
        t
same_fields a b c d e f = cc

from_bcd-Shows :
    (reg : ℕ → ℕ) (t : RtcTime) → Shows reg t → from_bcd (reg 0x0B) (read_registers reg) ≡ t
unfolding from_bcd
from_bcd-Shows reg t v =
    if_fields (bit 4 (reg 0x0B)) (read_registers reg) _
    ∙ same_fields (decoded (reg 0x0B) (reg 0x00) t.second v.second.0 (omega (arith, v.second.1)))
        (decoded (reg 0x0B) (reg 0x02) t.minute v.minute.0 (omega (arith, v.minute.1)))
        (decoded (reg 0x0B) (reg 0x04) t.hour v.hour.0 (omega (arith, v.hour.1)))
        (decoded (reg 0x0B) (reg 0x07) t.day v.day.0 (omega (arith, v.day.1)))
        (decoded (reg 0x0B) (reg 0x08) t.month v.month.0 (omega (arith, v.month.1)))
        (decoded (reg 0x0B) (reg 0x09) t.year v.year.0 (omega (arith, v.year.1)))

from_am_pm_same : (b : ℕ) (t : RtcTime) → bit 2 b ≡ true → from_am_pm b t ≡ t
unfolding from_am_pm
from_am_pm_same b t e = rw e refl

-- With 24-hour registers, binary coded or not, the time is the one that they show, with the year
-- in the century from 2000 on.
pub rtc_get_time_lem :
    (reg : ℕ → ℕ) (t : RtcTime) → Shows reg t → rtc_get_time reg ≡ record t { year = t.year + 2000 }
unfolding rtc_get_time
rtc_get_time_lem reg t v =
    ap (λ (x : RtcTime). record x { year = x.year + 2000 })
      (ap (from_am_pm (reg 0x0B)) (from_bcd-Shows reg t v) ∙ from_am_pm_same (reg 0x0B) t v.format)

-- With 24-hour registers the hour in Brasília is in range and is the clock's hour less 3, round
-- the clock. Minute, second, day and month are the clock's, and the year is the clock's in the
-- century from 2000 on, also for the hours before 3, which belong to the day before.
pub rtc_get_time_brt_lem :
    (reg : ℕ → ℕ) (t : RtcTime)
    → Shows reg t
    → ((rtc_get_time_brt reg).hour < 24)
      × (((rtc_get_time_brt reg).hour + 3) % 24 ≡ t.hour)
      × ((rtc_get_time_brt reg).minute ≡ t.minute)
      × ((rtc_get_time_brt reg).second ≡ t.second)
      × ((rtc_get_time_brt reg).day ≡ t.day)
      × ((rtc_get_time_brt reg).month ≡ t.month)
      × ((rtc_get_time_brt reg).year ≡ t.year + 2000)
unfolding rtc_get_time_brt to_brt
rtc_get_time_brt_lem reg t v =
    let e = rtc_get_time_lem reg t v in
    let h = ap (λ (x : RtcTime). x.hour) e in
    (
      ground (arith, h, v.hour.1),
      ground (arith, h, v.hour.1),
      ground (arith, ap (λ (x : RtcTime). x.minute) e),
      ground (arith, ap (λ (x : RtcTime). x.second) e),
      ground (arith, ap (λ (x : RtcTime). x.day) e),
      ground (arith, ap (λ (x : RtcTime). x.month) e),
      ground (arith, ap (λ (x : RtcTime). x.year) e),
    )

-- With binary coded 12-hour registers, an hour after noon, which has bit 7 set, is shown as the
-- clock's hour plus 80: the conversion takes the bit for digits, and the test for it fails.
pub rtc_get_time_pm :
    (reg : ℕ → ℕ) (n : ℕ)
    → bit 4 (reg 0x0B) ≡ false
    → bit 2 (reg 0x0B) ≡ false
    → 1 ≤ n
    → n ≤ 12
    → reg 0x04 ≡ 128 + to_bcd n
    → (rtc_get_time reg).hour ≡ n + 80
unfolding rtc_get_time from_bcd from_am_pm
rtc_get_time_pm reg n bcd twelve low high e = ground (arith, bcd, twelve, low, high, e)
