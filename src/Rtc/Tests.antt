-- ===== src/Rtc/Tests.antt =====
-- Runs of src/rtc.c on registers that show 9 May 2024, 1:59:30.
use meu_so_baremetal.Prelude.{ℕ, ◌+◌, ◌%◌, ◌<◌, ◌≡◌, refl, arith, ◌==◌, if◌then◌else◌}
use meu_so_baremetal.Rtc.{RtcTime, rtc_get_time, rtc_get_time_brt}
use meu_so_baremetal.Rtc.Times.{Shows, rtc_get_time_lem, rtc_get_time_brt_lem}

abbrev registers : ℕ → ℕ
registers r =
    if r == 0x00
    then 0x30
    else if r == 0x02
    then 0x59
    else if r == 0x04
    then 0x01
    else if r == 0x07
    then 0x09
    else if r == 0x08
    then 0x05
    else if r == 0x09
    then 0x24
    else 0x02

abbrev shown : RtcTime
shown = record { second = 30; minute = 59; hour = 1; day = 9; month = 5; year = 24 }

shown-Shows : Shows registers shown
shown-Shows = record {
  second = (refl, omega arith);
  minute = (refl, omega arith);
  hour = (refl, omega arith);
  day = (refl, omega arith);
  month = (refl, omega arith);
  year = (refl, omega arith);
  format = refl;
}

rtc_get_time_lem_example : rtc_get_time registers ≡ record shown { year = 2024 }
rtc_get_time_lem_example = rtc_get_time_lem registers shown shown-Shows

rtc_get_time_brt_lem_example :
    ((rtc_get_time_brt registers).hour < 24)
    × (((rtc_get_time_brt registers).hour + 3) % 24 ≡ 1)
    × ((rtc_get_time_brt registers).minute ≡ 59)
    × ((rtc_get_time_brt registers).second ≡ 30)
    × ((rtc_get_time_brt registers).day ≡ 9)
    × ((rtc_get_time_brt registers).month ≡ 5)
    × ((rtc_get_time_brt registers).year ≡ 2024)
rtc_get_time_brt_lem_example = rtc_get_time_brt_lem registers shown shown-Shows

-- One o'clock in the afternoon, with 12 hours and binary coded digits.
abbrev afternoon : ℕ → ℕ
afternoon r = if r == 0x04 then 0x81 else 0
