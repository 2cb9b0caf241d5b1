-- ===== src/Rtc/Tests.antt =====
-- The theorems on the clock chip of mips_test/i2c_test.c at small inputs.
use linux_c_code.Base.{ℕ, ◌+◌, ◌%◌, ◌≡◌, true, arith}
use linux_c_code.Rtc.{bcd_dec, p8563_alarm, p8563_min_alarm, next_minute}
use linux_c_code.Rtc.Alarm.{p8563_alarm_lem, p8563_min_alarm_lem}

abbrev blank : ℕ → ℕ
blank i = 0

p8563_alarm_run :
    let after = p8563_alarm (λ i. true) 31 23 59 blank in
    (bcd_dec (after 0x9) ≡ 59)
    × (bcd_dec (after 0xa) ≡ 23)
    × (bcd_dec (after 0xb) ≡ 31)
    × (after 0x01 ≡ 0x02)
    × (after 0xd ≡ 0)
p8563_alarm_run =
    p8563_alarm_lem 31 23 59 0xd blank (omega arith) (omega arith) (omega arith) (omega arith)

p8563_min_alarm_run :
    let after = p8563_min_alarm (λ i. true) (next_minute 59) blank in
    (bcd_dec (after 0x9) ≡ (59 + 1) % 60)
    × (after 0xa ≡ 0x80)
    × (after 0xb ≡ 0x80)
    × (after 0xc ≡ 0x80)
    × (after 0x01 ≡ 0x02)
p8563_min_alarm_run = p8563_min_alarm_lem 59 blank
