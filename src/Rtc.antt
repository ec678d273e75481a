-- ===== src/Rtc.antt =====
-- src/rtc.c: the CMOS clock, its conversions, and the shift to the time of Brasília.
-- What the clock's registers hold is an argument, a function of the register's number.
pub mod Times
mod Tests
use meu_so_baremetal.Prelude.{
  ℕ, ◌+◌, ◌-◌, ◌*◌, ◌/◌, ◌%◌, Bool, true, false, not, ◌&&◌, leb, ◌==◌, if◌then◌else◌,
}

abbrev pub bit : ℕ → ℕ → Bool
bit m b = b / m % 2 == 1

-- All fields but `year` are bytes.
pub record RtcTime : Type 0 where
  pub second : ℕ
  pub minute : ℕ
  pub hour : ℕ
  pub day : ℕ
  pub month : ℕ
  pub year : ℕ

abbrev pub bcd_to_bin : ℕ → ℕ
bcd_to_bin val = (val / 16 * 10 + val % 16) % 256

abbrev pub read_registers : (ℕ → ℕ) → RtcTime
read_registers reg = record {
  second = reg 0x00;
  minute = reg 0x02;
  hour = reg 0x04;
  day = reg 0x07;
  month = reg 0x08;
  year = reg 0x09;
}

-- The conversion of every field, unless register B says that they are binary already. The year is
-- an `uint32_t`, but passes through the byte that `bcd_to_bin` takes.
unfoldable pub from_bcd : ℕ → RtcTime → RtcTime
from_bcd register_b t = if bit 4 register_b then t else record {
  second = bcd_to_bin t.second;
  minute = bcd_to_bin t.minute;
  hour = bcd_to_bin t.hour;
  day = bcd_to_bin t.day;
  month = bcd_to_bin t.month;
  year = bcd_to_bin t.year;
}

-- From the 12-hour format to 24 hours.
unfoldable pub from_am_pm : ℕ → RtcTime → RtcTime
from_am_pm register_b t =
    if not (bit 2 register_b) && bit 128 t.hour
    then record t { hour = (t.hour % 128 + 12) % 24 }
    else t

unfoldable pub rtc_get_time : (ℕ → ℕ) → RtcTime
rtc_get_time reg =
    let t = from_am_pm (reg 0x0B) (from_bcd (reg 0x0B) (read_registers reg)) in
    record t { year = t.year + 2000 }

-- Three hours back.
unfoldable pub to_brt : RtcTime → RtcTime
to_brt t =
    if leb 3 t.hour then record t { hour = t.hour - 3 } else record t { hour = t.hour + 24 - 3 }

unfoldable pub rtc_get_time_brt : (ℕ → ℕ) → RtcTime
rtc_get_time_brt reg = to_brt (rtc_get_time reg)
