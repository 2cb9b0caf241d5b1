-- ===== src/Rtc/Alarm.antt =====
-- What the functions of mips_test/i2c_test.c send last for each register of the clock chip.
use linux_c_code.Base.{ℕ, ◌+◌, ◌<◌, ◌%◌, ◌≡◌, refl, true, arith}
use linux_c_code.Rtc.{
  bcd_dec, last_sent, i2c_write_byte, send_byte, p8563_alarm, p8563_min_alarm, next_minute,
}
use linux_c_code.Rtc.Digits.{bcd_dec-dec_bcd}

-- When the kernel takes all transfers, `P8563_min_alarm` for the next minute of the clock sends for the
-- minute of the alarm that minute, a number below 60 in two digits, leaves hour, day and weekday out of
-- the comparison, and turns the alarm on.
pub p8563_min_alarm_lem :
    (tm_min : ℕ) (registers : ℕ → ℕ)
    → let after = p8563_min_alarm (λ i. true) (next_minute tm_min) registers in
      (bcd_dec (after 0x9) ≡ (tm_min + 1) % 60)
      × (after 0xa ≡ 0x80)
      × (after 0xb ≡ 0x80)
      × (after 0xc ≡ 0x80)
      × (after 0x01 ≡ 0x02)
unfolding p8563_min_alarm send_byte last_sent i2c_write_byte next_minute
p8563_min_alarm_lem tm_min registers =
    (bcd_dec-dec_bcd ((tm_min + 1) % 60) (omega arith), refl, refl, refl, refl)

-- When the kernel takes all transfers, `P8563_alarm` sets minute, hour and day of the alarm to the
-- numbers that it is given, if these have two digits, and no register but these, the weekday and the
-- control register.
pub p8563_alarm_lem :
    (day hour min other : ℕ) (registers : ℕ → ℕ)
    → day < 100
    → hour < 100
    → min < 100
    → 0xc < other
    → let after = p8563_alarm (λ i. true) day hour min registers in
      (bcd_dec (after 0x9) ≡ min)
      × (bcd_dec (after 0xa) ≡ hour)
      × (bcd_dec (after 0xb) ≡ day)
      × (after 0x01 ≡ 0x02)
      × (after other ≡ registers other)
unfolding p8563_alarm send_byte last_sent i2c_write_byte
p8563_alarm_lem day hour min other registers d h m o =
    (bcd_dec-dec_bcd min m, bcd_dec-dec_bcd hour h, bcd_dec-dec_bcd day d, refl, ground (arith, o))
