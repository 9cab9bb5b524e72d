-- ===== src/I2c.antt =====
-- The I2C driver, QSD8250Pkg/GPLDrivers/I2CDxe/I2CDxe.c, with the structures of
-- QSD8250Pkg/Include/Chipset/msm_i2c.h. `none` is an access outside of the messages or their buffers.
-- The clock protocol and the pin multiplexer are parameters; interrupts come as a schedule says
-- (Xfer).
pub mod InTransfer
pub mod Xfer
pub mod Frame
mod Tests
use htc_leo_pkg.Prelude.{
  ℕ, zero, suc, ◌+◌, ◌-◌, ◌*◌, ◌%◌, ◌^◌, Option, none, some, Option-cases, List, get_elem?, set,
  Bool, true, false, not, ◌&&◌, ◌||◌, ltb, bit_and, bit_or, ◌==◌, ◌>>=◌, if◌then◌else◌,
}
use htc_leo_pkg.Bus.{Bus}

abbrev pub i2c_reg : ℕ → ℕ
i2c_reg off = 0xa9900000 + off

abbrev pub i2c_write_data : ℕ
i2c_write_data = i2c_reg 0x00

abbrev pub i2c_status : ℕ
i2c_status = i2c_reg 0x08

abbrev pub i2c_read_data : ℕ
i2c_read_data = i2c_reg 0x0c

abbrev pub i2c_interface_select : ℕ
i2c_interface_select = i2c_reg 0x10

abbrev pub addr_byte : ℕ
addr_byte = 2 ^ 8

abbrev pub last_byte : ℕ
last_byte = 2 ^ 9

abbrev pub status_wr_buffer_full : ℕ
status_wr_buffer_full = 2 ^ 0

abbrev pub status_rd_buffer_full : ℕ
status_rd_buffer_full = 2 ^ 1

abbrev pub status_bus_active : ℕ
status_bus_active = 2 ^ 8

abbrev pub status_error_mask : ℕ
status_error_mask = 0xfc

abbrev pub select_scl : ℕ
select_scl = 2 ^ 8

-- struct i2c_msg; `is_read` is the flag I2C_M_RD, the only one that is used.
pub record I2cMsg : Type 0 where
  pub addr : ℕ
  pub is_read : Bool
  pub len : ℕ
  pub buf : List ℕ

-- `pos`, -1 being `address`.
pub data Pos : Type 0 where
  address : Pos
  byte : ℕ → Pos

-- struct msm_i2c_dev with the array of messages that `msg` points into, the static `timeout`, which is
-- ERR_TIMED_OUT or 0, and the hardware. `ret` is a number of messages, or `none` for ERROR.
pub record I2c (S : Type 0) : Type 0 where
  pub msgs : List I2cMsg
  pub msg : Option ℕ
  pub rem : ℕ
  pub pos : Pos
  pub cnt : ℕ
  pub ret : Option ℕ
  pub need_flush : Bool
  pub flush_cnt : ℕ
  pub timed_out : Bool
  pub hw : S

module _ (bus : Bus) (delay : bus.State → bus.State) where
  open bus use {State, readl, writel}

  abbrev pub msm_i2c_write_delay : State → State
  msm_i2c_write_delay s =
      let (v, s') = readl s i2c_interface_select in
      if bit_and v select_scl == 0 then delay s' else s'

  abbrev pub put_data : ℕ → I2c State → I2c State
  put_data val c = record c { hw = writel (msm_i2c_write_delay c.hw) i2c_write_data val }

  -- The address byte of a message.
  abbrev pub address_word : I2cMsg → ℕ → ℕ
  address_word m rem =
      let val = bit_or addr_byte (m.addr * 2) % 2 ^ 16 in
      let dir = if m.is_read then bit_or val 1 else val in
      if (rem == 1) && (m.len == 0) then bit_or dir last_byte else dir

  -- A byte of data; the last one of the last message is marked.
  abbrev pub data_word : ℕ → ℕ → ℕ → ℕ
  data_word b cnt rem = if (cnt == 1) && (rem == 1) then bit_or b last_byte else b

  -- With the message that `msg` points to. The Boolean is the one returned.
  abbrev pub fill : I2cMsg → I2c State → Option (Bool × I2c State)
  fill m c = elim c.pos [
    | address ↦ some (true, record (put_data (address_word m c.rem) c) { pos = byte 0 })
    | byte p ↦
        let next : Option (Bool × I2c State) = get_elem? m.buf p >>= λ b. some (
          true,
          record (put_data (data_word b c.cnt c.rem) c) { pos = byte (p + 1); cnt = c.cnt - 1 },
        ) in
        if m.is_read || (c.cnt == 0) then some (false, c) else next
  ]

  pub msm_i2c_fill_write_buffer : I2c State → Option (Bool × I2c State)
  msm_i2c_fill_write_buffer c = do i ← c.msg; m ← get_elem? c.msgs i; fill m c

  -- A byte that is expected, at `p` of message `i`.
  abbrev pub take_byte : ℕ → I2cMsg → ℕ → I2c State → Option (I2c State)
  take_byte i m p c =
      let only = (c.cnt == 1) && (p == 0) in
      let s₁ = if only || (c.cnt == 2) then writel c.hw i2c_write_data last_byte else c.hw in
      let (v, s₂) = readl s₁ i2c_read_data in
      get_elem? m.buf p >>= λ old. some (record c {
        msgs = set c.msgs i (record m { buf = set m.buf p (v % 2 ^ 8) });
        need_flush = only || c.need_flush;
        cnt = c.cnt - 1;
        pos = byte (p + 1);
        hw = s₂;
      })

  -- A byte that nobody asked for.
  abbrev pub flush : I2c State → I2c State
  flush c =
      let s₁ = if bit_and c.flush_cnt 1 == 0 then c.hw else writel c.hw i2c_write_data last_byte in
      let s₂ = (readl s₁ i2c_read_data).1 in
      if c.need_flush
      then record c { need_flush = false; hw = s₂ }
      else record c { flush_cnt = c.flush_cnt + 1; hw = s₂ }

  abbrev pub read_byte : ℕ → I2cMsg → Pos → I2c State → Option (I2c State)
  read_byte i m address c = some (flush c)
  read_byte i m (byte p) c =
      let taken = take_byte i m p c in
      if m.is_read && not (c.cnt == 0) then taken else some (flush c)

  pub msm_i2c_read_buffer : I2c State → Option (I2c State)
  msm_i2c_read_buffer c = do i ← c.msg; m ← get_elem? c.msgs i; read_byte i m c.pos c

  -- The end of the handler: the next message, or the end of the transfer.
  abbrev pub advance : Bool → Pos → I2c State → Option (I2c State)
  advance not_done address c = some c
  advance not_done (byte p) c =
      let next : Option (I2c State) = c.msg >>= λ i. get_elem? c.msgs (i + 1) >>= λ m.
      some (record c { rem = c.rem - 1; msg = some (i + 1); pos = address; cnt = m.len }) in
      let ended = record c { timed_out = false } in
      let last = if not not_done && not c.need_flush then ended else c in
      if not (c.cnt == 0) then some c else if ltb 1 c.rem then next else some last

  -- What the handler does for a status without an error.
  abbrev pub serve : ℕ → I2c State → Option (I2c State)
  serve status c = do
    filled ←
        if bit_and status status_wr_buffer_full == 0
        then msm_i2c_fill_write_buffer c
        else some (true, c)
    c₁ ←
        if bit_and status status_rd_buffer_full == 0
        then some filled.1
        else msm_i2c_read_buffer filled.1
    advance filled.0 c₁.pos c₁

  -- The handler from the test of `dev.msg` on, with the status that it has read.
  abbrev pub respond : ℕ → I2c State → Option (I2c State)
  respond status c = elim c.msg [
    | none ↦ some c
    | some i ↦
        let served = serve status c in
        if not (bit_and status status_error_mask == 0)
        then some (record c { ret = none; timed_out = true })
        else served
  ]

  pub msm_i2c_interrupt_locked : I2c State → Option (I2c State)
  unfolding msm_i2c_fill_write_buffer msm_i2c_read_buffer
  msm_i2c_interrupt_locked c =
      let (status, s) = readl c.hw i2c_status in respond status (record c { hw = s })

  -- `k` interrupts in a row.
  pub take_interrupts : ℕ → I2c State → Option (I2c State)
  unfolding msm_i2c_interrupt_locked
  take_interrupts zero c = some c
  take_interrupts (suc k) c = msm_i2c_interrupt_locked c >>= take_interrupts k
