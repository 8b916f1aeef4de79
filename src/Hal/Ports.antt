-- ===== src/Hal/Ports.antt =====
-- hal/aur64/hal_aur64.c, the serial port. The instructions that read and write a port are parameters.
use ntx_preview.Base.{
  ℕ, zero, suc, Bool, true, false, Option, none, some, bit_and, if◌then◌else◌, ◌==◌,
}

-- `HalpIoRead8` and `HalpIoWrite8` on a machine that a `W` stands for.
pub record Ports (W : Type 0) : Type 0 where
  pub read8 : ℕ → W → ℕ × W
  pub write8 : ℕ → ℕ → W → W

abbrev pub com1_port : ℕ
com1_port = 0x3F8

abbrev pub ps2_data_port : ℕ
ps2_data_port = 0x60

abbrev pub ps2_status_port : ℕ
ps2_status_port = 0x64

-- `HalpInitializeSerial`
unfoldable pub initialize_serial : {W : Type 0} → Ports W → W → W
initialize_serial ports w =
    let w1 = ports.write8 0x3F9 0x00 w in
    let w2 = ports.write8 0x3FB 0x80 w1 in
    let w3 = ports.write8 com1_port 0x03 w2 in
    let w4 = ports.write8 0x3F9 0x00 w3 in
    let w5 = ports.write8 0x3FB 0x03 w4 in
    let w6 = ports.write8 0x3FA 0xC7 w5 in ports.write8 0x3FC 0x0B w6

-- The loop of HalpSerialWriteChar, of which `n` tests are left: whether the line is free.
unfoldable pub wait_free : {W : Type 0} → Ports W → ℕ → W → Bool × W
wait_free ports zero w = (false, w)
wait_free ports (suc n) w =
    let (status, polled) = ports.read8 0x3FD w in
    let rest = wait_free ports n polled in if bit_and status 0x20 == 0 then rest else (true, polled)

-- `HalpSerialWriteChar`
unfoldable pub serial_write_char : {W : Type 0} → Ports W → ℕ → W → W
unfolding wait_free
serial_write_char ports ch w =
    let (free, polled) = wait_free ports 1000000 w in
    if free then ports.write8 com1_port ch polled else polled

-- `HalpSerialTryReadChar`
unfoldable pub serial_try_read_char : {W : Type 0} → Ports W → W → Option ℕ × W
serial_try_read_char ports w =
    let (status, polled) = ports.read8 0x3FD w in
    if bit_and status 0x01 == 0
    then (none, polled)
    else (let (ch, taken) = ports.read8 com1_port polled in (some ch, taken))
