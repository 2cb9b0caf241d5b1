-- ===== src/Rtc.antt =====
-- The clock chip of mips_test/i2c_test.c: binary-coded decimals, transfers on the bus, and what is
-- sent for the registers of the alarm. Whether the kernel takes a transfer is an argument; bytes are numbers below 2 ^ 8.
pub mod Digits
pub mod Alarm
mod Tests
use Prim.Native.Nat.{bit_and, bit_or}
use linux_c_code.Base.{
  ℕ, zero, suc, ◌+◌, ◌*◌, ◌/◌, ◌%◌, ◌^◌, Bool, true, false, Option, none, some, List, [], ◌∷◌, ◌++◌,
  ltb, ◌==◌, if◌then◌else◌, length, take,
}

-- A conversion to `uint8_t`.
abbrev pub u8 : ℕ → ℕ
u8 n = n % 2 ^ 8

-- `bcd_dec`
unfoldable pub bcd_dec : ℕ → ℕ
bcd_dec bat =
    let temp1 = bit_and bat 0x0f in let temp2 = bit_and bat 0xf0 / 2 ^ 4 in u8 (temp2 * 10 + temp1)

-- `dec_bcd`
unfoldable pub dec_bcd : ℕ → ℕ
dec_bcd bat = u8 (bit_or (bit_and (bat % 10) 0x0f) (bit_and ((bat / 10) * 2 ^ 4) 0xf0))

-- The result -1 as a `uint8_t`.
abbrev pub failure : ℕ
failure = 255

-- `i2c_write`: the result, and the bytes that are handed to `write`; `none` if they do not fit `data`,
-- which has 255 bytes. `fine` tells whether `write` takes them all.
unfoldable pub i2c_write : (fine : Bool) → (reg : ℕ) → List ℕ → (cnt : ℕ) → Option (ℕ × List ℕ)
i2c_write fine reg val cnt =
    if ltb cnt 255 then some ((if fine then 0 else failure), reg ∷ take cnt val) else none

-- `i2c_write_byte`
unfoldable pub i2c_write_byte : (fine : Bool) → (reg val : ℕ) → ℕ × List ℕ
i2c_write_byte fine reg val = ((if fine then 0 else failure), reg ∷ val ∷ [])

-- `i2c_read`: the result; `bytes` is what `read` stores.
unfoldable pub i2c_read : (sent : Bool) → (bytes : List ℕ) → (cnt : ℕ) → ℕ
i2c_read sent bytes cnt = if sent then (if length bytes == cnt then 0 else failure) else failure

-- What was last sent for each register, after a transfer of a register number and a byte.
unfoldable pub last_sent : List ℕ → (ℕ → ℕ) → ℕ → ℕ
last_sent (reg ∷ val ∷ []) registers i = if i == reg then val else registers i
last_sent _ registers i = registers i

-- One byte for a register, whose result the callers ignore.
unfoldable pub send_byte : (fine : Bool) → (reg val : ℕ) → (ℕ → ℕ) → ℕ → ℕ
send_byte fine reg val registers =
    if fine then last_sent (i2c_write_byte fine reg val).1 registers else registers

-- `P8563_alarm`; `fines` tells for each transfer whether the kernel takes it.
unfoldable pub p8563_alarm : (fines : ℕ → Bool) → (day hour min : ℕ) → (ℕ → ℕ) → ℕ → ℕ
p8563_alarm fines day hour min registers = send_byte (fines 4) 0x01 0x02 (
    send_byte (fines 3) 0x9 (dec_bcd min) (
      send_byte (fines 2) 0xa (dec_bcd hour)
        (send_byte (fines 1) 0xb (dec_bcd day) (send_byte (fines 0) 0xc 0x1 registers))))

-- `P8563_min_alarm`
unfoldable pub p8563_min_alarm : (fines : ℕ → Bool) → (min : ℕ) → (ℕ → ℕ) → ℕ → ℕ
p8563_min_alarm fines min registers = send_byte (fines 4) 0x01 0x02 (
    send_byte (fines 3) 0xc 0x80 (
      send_byte (fines 2) 0xb 0x80
        (send_byte (fines 1) 0xa 0x80 (send_byte (fines 0) 0x9 (dec_bcd min) registers))))

-- The minute that `main` asks for, from the minute of the clock.
unfoldable pub next_minute : ℕ → ℕ
next_minute tm_min = (tm_min + 1) % 60
