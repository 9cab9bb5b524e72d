-- ===== src/I2c/Xfer.antt =====
-- A transfer of I2CDxe.c: the wait for the bus, its recovery over the two pins, msm_i2c_xfer, and the
-- retries of msm_i2c_write and msm_i2c_read.
pub mod Returns
use htc_leo_pkg.Prelude.{
  ℕ, zero, suc, ◌+◌, ◌-◌, ◌%◌, ◌^◌, Option, none, some, List, [], ◌∷◌, get_elem?, Bool, true, false,
  not, ◌&&◌, ltb, bit_and, bit_or, ◌==◌, ◌>>=◌, if◌then◌else◌,
}
use htc_leo_pkg.Bus.{Bus}
use htc_leo_pkg.Gpio.{gpio_config, gpio_set, gpio_get, gpio_input}
use htc_leo_pkg.Interrupt.{enable_interrupt_source, disable_interrupt_source}
use htc_leo_pkg.I2c.{
  I2cMsg, I2c, Pos, address, byte, i2c_write_data, i2c_status, i2c_read_data, last_byte,
  status_wr_buffer_full, status_rd_buffer_full, status_bus_active, respond, take_interrupts,
}

abbrev pub status_bus_master : ℕ
status_bus_master = 512

abbrev pub gpio_i2c_clk : ℕ
gpio_i2c_clk = 95

abbrev pub gpio_i2c_dat : ℕ
gpio_i2c_dat = 96

-- INT_PWB_I2C
abbrev pub int_pwb_i2c : ℕ
int_pwb_i2c = 32 + 2

abbrev pub retry_times : ℕ
retry_times = 16

-- The int that is returned: a number of messages, or an error.
pub data Code : Type 0 where
  messages : ℕ → Code
  error not_ready timed_out : Code

-- `dev.ret`
abbrev pub code_of : Option ℕ → Code
code_of none = error
code_of (some k) = messages k

-- `ret < 0`
abbrev pub is_failure : Code → Bool
is_failure (messages k) = false
is_failure _ = true

abbrev pub is_messages : ℕ → Code → Bool
is_messages num (messages k) = k == num
is_messages num _ = false

-- `arrivals p k` interrupts come before read `k` of the status in wait `p` of a transfer, and
-- `arrivals 2 k` at point `k` of its set-up: before assignment `k`, at 7 before the handler is called,
-- and at 8 in that call, after its read of the status. The rest of the handler is taken as one step.
module _ (bus : Bus) (nano micro : ℕ → bus.State → bus.State)
    (clk_enable clk_disable : bus.State → bus.State) (set_mux_to_i2c : Bool → bus.State → bus.State)
    (arrivals : ℕ → ℕ → ℕ) where
  open bus use {State, readl, writel}

  -- The interrupts at point `k` of the set-up.
  abbrev pub interrupted : ℕ → I2c State → Option (I2c State)
  interrupted k c = take_interrupts bus (nano 6) (arrivals 2 k) c

  -- `left` reads are left of the 200. The Boolean says that the bus is not busy.
  pub poll_loop : ℕ → ℕ → ℕ → I2c State → Option (Bool × I2c State)
  poll_loop p zero retries c = some (false, c)
  poll_loop p (suc left) retries c = take_interrupts bus (nano 6) (arrivals p retries) c >>= λ c₁.
      let (status, s) = readl c₁.hw i2c_status in
      let waited = record c₁ { hw = if ltb 100 retries then micro 10 s else s } in
      let rest = poll_loop p left (retries + 1) waited in
      if bit_and status status_bus_active == 0 then some (true, record c₁ { hw = s }) else rest

  pub msm_i2c_poll_notbusy : ℕ → I2c State → Option (Bool × I2c State)
  unfolding poll_loop
  msm_i2c_poll_notbusy p c = poll_loop p 200 0 c

  -- One clock cycle by hand. The Boolean is `gpio_clk_status`.
  abbrev pub clock_cycle : State → Bool × State
  clock_cycle s =
      let s₁ = nano 5 (gpio_set bus gpio_i2c_clk 0 s) in
      let s₂ = nano 5 (gpio_set bus gpio_i2c_dat 0 s₁) in
      let s₃ = nano 5 (gpio_config bus gpio_i2c_clk gpio_input s₂).1 in
      let (v₁, s₄) = gpio_get bus gpio_i2c_clk s₃ in
      let s₅ = if v₁ == 0 then nano 20 s₄ else s₄ in
      let (v₂, s₆) = gpio_get bus gpio_i2c_clk s₅ in
      let s₇ = if v₂ == 0 then micro 10 s₆ else s₆ in
      let (v₃, s₈) = gpio_get bus gpio_i2c_clk s₇ in
      (not (v₃ == 0), nano 5 (gpio_config bus gpio_i2c_dat gpio_input s₈).1)

  pub clock_cycles : ℕ → Bool → State → State
  clock_cycles zero clk s = s
  clock_cycles (suc left) clk s =
      let (sda, s') = gpio_get bus gpio_i2c_dat s in
      let (clk', s'') = clock_cycle s' in
      let rest = clock_cycles left clk' s'' in if not (sda == 0) && clk then s' else rest

  -- The Boolean says that the bus is free.
  pub msm_i2c_recover_bus_busy : State → Bool × State
  unfolding clock_cycles
  msm_i2c_recover_bus_busy s =
      let (status, s₀) = readl s i2c_status in
      let s₁ = set_mux_to_i2c false s₀ in
      let s₂ =
        if not (bit_and status status_rd_buffer_full == 0)
        then (readl (writel s₁ i2c_write_data last_byte) i2c_read_data).1
        else if not (bit_and status status_bus_master == 0)
        then writel s₁ i2c_write_data (bit_or last_byte 0xff)
        else s₁ in
      let s₃ = nano 10 (set_mux_to_i2c true (clock_cycles 9 false s₂)) in
      let (status', s₄) = readl s₃ i2c_status in
      if bit_and status (bit_or status_bus_active status_wr_buffer_full) == 0
      then (true, s₀)
      else (bit_and status' status_bus_active == 0, s₄)

  -- From the label `err` on.
  abbrev pub finish_xfer : Code → I2c State → Code × I2c State
  finish_xfer code c =
      (code, record c { hw = clk_disable (disable_interrupt_source bus int_pwb_i2c c.hw).1 })

  -- What follows the second wait.
  abbrev pub conclude : Bool → I2c State → Code × I2c State
  conclude idle c =
      let c₁ = record c {
        msg = none;
        rem = 0;
        pos = byte 0;
        ret = some 0;
        flush_cnt = 0;
        cnt = 0;
      } in
      let (free, s₁) = msm_i2c_recover_bus_busy c₁.hw in
      let c₂ = if idle then c₁ else record c₁ { hw = s₁ } in
      let code = if c₂.timed_out then timed_out else code_of c.ret in
      let c₃ = record c₂ { hw = (msm_i2c_recover_bus_busy c₂.hw).1 } in
      if not idle && not free
      then finish_xfer (code_of c.ret) c₂
      else finish_xfer code (if is_failure code then c₃ else c₂)

  -- The assignments to `dev`, whose interrupt is already enabled. `len` is `msgs->len`.
  pub set_up : ℕ → ℕ → I2c State → Option (I2c State)
  set_up len num c = do
    c₀ ← interrupted 0 c
    c₁ ← interrupted 1 (record c₀ { msg = some 0 })
    c₂ ← interrupted 2 (record c₁ { rem = num })
    c₃ ← interrupted 3 (record c₂ { pos = address })
    c₄ ← interrupted 4 (record c₃ { ret = some num })
    c₅ ← interrupted 5 (record c₄ { need_flush = false })
    c₆ ← interrupted 6 (record c₅ { flush_cnt = 0 })
    interrupted 7 (record c₆ { cnt = len })

  -- The call of msm_i2c_interrupt_locked after the set-up.
  pub call_handler : I2c State → Option (I2c State)
  call_handler c = do
    let (status, s) = readl c.hw i2c_status
    c₁ ← interrupted 8 (record c { hw = s })
    respond bus (nano 6) status c₁

  -- The messages are set up, the handler is called once, and the bus is waited for. `c` has `msgs` as
  -- its array.
  abbrev pub transfer : List I2cMsg → ℕ → I2c State → Option (Code × I2c State)
  transfer msgs num c = do
    first ← get_elem? msgs 0
    c₁ ← set_up first.len num (record c { msgs = msgs })
    c₂ ← call_handler c₁
    waited ← msm_i2c_poll_notbusy 1 c₂
    some (conclude waited.0 waited.1)

  -- `msgs` is the array of the caller, whose read buffers the handler fills.
  pub msm_i2c_xfer : List I2cMsg → ℕ → I2c State → Option (Code × I2c State)
  unfolding msm_i2c_poll_notbusy msm_i2c_recover_bus_busy set_up call_handler
  msm_i2c_xfer msgs num c = do
    waited ← msm_i2c_poll_notbusy 0 (record c {
      msgs = msgs;
      hw = (enable_interrupt_source bus int_pwb_i2c (clk_enable c.hw)).1;
    })
    let (free, s) = msm_i2c_recover_bus_busy waited.1.hw
    let recovered = record waited.1 { hw = s }
    let ready = if waited.0 then waited.1 else recovered
    let sent = transfer msgs num ready
    if not waited.0 && not free then some (finish_xfer not_ready recovered) else sent

  -- `left` tries are left. The Boolean says that one succeeded; the messages are as the last one left
  -- them.
  pub tries : ℕ → List I2cMsg → ℕ → I2c State → Option (Bool × I2c State)
  unfolding msm_i2c_xfer
  tries zero msgs num c = some (false, c)
  tries (suc left) msgs num c = msm_i2c_xfer msgs num c >>= λ r.
      let again = tries left r.1.msgs num (record r.1 { hw = micro 10 r.1.hw }) in
      if is_messages num r.0 then some (true, r.1) else again

  pub msm_i2c_write : ℕ → List ℕ → ℕ → I2c State → Option (Bool × I2c State)
  unfolding tries
  msm_i2c_write chip buf count c =
      let m : I2cMsg = record {
        addr = chip % 2 ^ 16;
        is_read = false;
        len = count % 2 ^ 16;
        buf = buf;
      } in
      tries (retry_times + 1) (m ∷ []) 1 c

  pub msm_i2c_read : ℕ → ℕ → List ℕ → ℕ → I2c State → Option (Bool × I2c State)
  unfolding tries
  msm_i2c_read chip reg buf count c =
      let m₁ : I2cMsg = record { addr = chip % 2 ^ 16; is_read = false; len = 1; buf = reg ∷ [] } in
      let m₂ : I2cMsg = record {
        addr = chip % 2 ^ 16;
        is_read = true;
        len = count % 2 ^ 16;
        buf = buf;
      } in
      tries (retry_times + 1) (m₁ ∷ m₂ ∷ []) 2 c
