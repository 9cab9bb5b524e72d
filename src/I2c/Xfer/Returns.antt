-- ===== src/I2c/Xfer/Returns.antt =====
-- That a transfer of I2CDxe.c returns with interrupts in its waits, and what one in its set-up does.
use mathlib.Core.Path.{subst}
use htc_leo_pkg.Prelude.{
  ℕ, zero, suc, ◌+◌, ◌-◌, ◌<◌, ◌≡◌, refl, sym, arith, lt→ltb, none, some, List, length, get_elem?,
  get_elem?-inside, Bool, true, false, not, ◌&&◌, bit_and, ◌==◌, if◌then◌else◌, if-elim, All, Gives,
  Gives-bind,
}
use htc_leo_pkg.Bus.{Bus}
use htc_leo_pkg.Interrupt.{enable_interrupt_source}
use htc_leo_pkg.I2c.{
  I2cMsg, I2c, address, byte, i2c_status, status_bus_active, take_interrupts,
  msm_i2c_interrupt_locked,
}
use htc_leo_pkg.I2c.InTransfer.{
  IsBuffered, IsInTransfer, moved-IsInTransfer, interrupt_locked-IsInTransfer,
  take_interrupts-IsInTransfer, take_interrupts-idle,
}
use htc_leo_pkg.I2c.Xfer.{
  Code, timed_out, code_of, is_failure, int_pwb_i2c, set_up, call_handler, poll_loop,
  msm_i2c_poll_notbusy, msm_i2c_recover_bus_busy, finish_xfer, conclude, transfer, msm_i2c_xfer,
}

-- No transfer is going on.
abbrev pub IsIdle : {S : Type 0} → I2c S → Type 0
IsIdle c = (c.msg ≡ none) × All IsBuffered c.msgs

module _ (bus : Bus) (nano micro : ℕ → bus.State → bus.State)
    (clk_enable clk_disable : bus.State → bus.State) (set_mux_to_i2c : Bool → bus.State → bus.State)
    (arrivals : ℕ → ℕ → ℕ) where
  open bus use {State, readl, writel}

  -- What the interrupts keep, and a change of the hardware, is kept by a wait.
  poll_loop-keeps :
      (P : I2c State → Type 0)
      → ((k : ℕ) (c : I2c State) → P c → Gives P (take_interrupts bus (nano 6) k c))
      → ((c : I2c State) (s : State) → P c → P (record c { hw = s }))
      → (p left retries : ℕ) (c : I2c State) → P c
      → Gives
          (λ (r : Bool × I2c State). P r.1)
          (poll_loop bus nano micro clk_enable clk_disable set_mux_to_i2c arrivals p left retries c)
  unfolding poll_loop
  poll_loop-keeps P serves moves p zero retries c h = ((false, c), refl, h)
  poll_loop-keeps P serves moves p (suc left) retries c h =
      Gives-bind P (λ (r : Bool × I2c State). P r.1)
        (take_interrupts bus (nano 6) (arrivals p retries) c) _ (serves (arrivals p retries) c h)
        (λ d u.
          let s = (readl d.hw i2c_status).1 in
          if-elim (Gives (λ (r : Bool × I2c State). P r.1))
            (bit_and (readl d.hw i2c_status).0 status_bus_active == 0)
            (λ _. ((true, record d { hw = s }), refl, moves d s u))
            (λ _. poll_loop-keeps P serves moves p left (retries + 1) _ (moves d _ u)))

  finish_xfer-IsIdle :
      (code : Code) (c : I2c State)
      → IsIdle c
      → IsIdle (finish_xfer bus nano micro clk_enable clk_disable set_mux_to_i2c arrivals code c).1
  finish_xfer-IsIdle code c h = h

  conclude-IsIdle :
      (idle : Bool) (c : I2c State)
      → All IsBuffered c.msgs
      → IsIdle (conclude bus nano micro clk_enable clk_disable set_mux_to_i2c arrivals idle c).1
  conclude-IsIdle idle c h =
      let recover =
        msm_i2c_recover_bus_busy bus nano micro clk_enable clk_disable set_mux_to_i2c arrivals in
      let c₁ : I2c State = record c {
        msg = none;
        rem = 0;
        pos = byte 0;
        ret = some 0;
        flush_cnt = 0;
        cnt = 0;
      } in
      let c₂ : I2c State = if idle then c₁ else record c₁ { hw = (recover c₁.hw).1 } in
      let c₃ : I2c State = record c₂ { hw = (recover c₂.hw).1 } in
      let code = if c₂.timed_out then timed_out else code_of c.ret in
      let second : IsIdle c₂ = if-elim IsIdle idle (λ _. (refl, h)) (λ _. (refl, h)) in
      if-elim (λ (r : Code × I2c State). IsIdle r.1) (not idle && not (recover c₁.hw).0)
        (λ _. second) (λ _. if-elim IsIdle (is_failure code) (λ _. second) (λ _. second))

  -- Nothing interrupts the set-up and the handler that it calls.
  abbrev pub IsUndisturbed : Type 0
  IsUndisturbed = (k : ℕ) → arrivals 2 k ≡ 0

  set_up-undisturbed :
      (len num : ℕ) (c : I2c State)
      → IsUndisturbed
      → set_up bus nano micro clk_enable clk_disable set_mux_to_i2c arrivals len num c
        ≡ some (record c {
          msg = some 0;
          rem = num;
          pos = address;
          ret = some num;
          need_flush = false;
          flush_cnt = 0;
          cnt = len;
        })
  unfolding set_up take_interrupts
  set_up-undisturbed len num c q =
      rw (q 0) (rw (q 1) (rw (q 2) (rw (q 3) (rw (q 4) (rw (q 5) (rw (q 6) (rw (q 7) refl)))))))

  call_handler-undisturbed :
      (c : I2c State)
      → IsUndisturbed
      → call_handler bus nano micro clk_enable clk_disable set_mux_to_i2c arrivals c
        ≡ msm_i2c_interrupt_locked bus (nano 6) c
  unfolding call_handler take_interrupts msm_i2c_interrupt_locked
  call_handler-undisturbed c q = rw (q 8) refl

  -- An interrupt in the middle of the set-up, after dev.rem and before dev.pos, with a status that only
  -- says that there is nothing to write, makes the handler go on to the second message: the set-up ends
  -- with `msg` at that message and `cnt` at the length of the first one.
  pub set_up_race :
      (len num : ℕ) (c : I2c State) (m : I2cMsg)
      → c.msg ≡ none
      → c.pos ≡ byte 0
      → c.cnt ≡ 0
      → get_elem? c.msgs 1 ≡ some m
      → 1 < num
      → (readl c.hw i2c_status).0 ≡ 1
      → ((k : ℕ) → arrivals 2 k ≡ (if k == 2 then 1 else 0))
      → set_up bus nano micro clk_enable clk_disable set_mux_to_i2c arrivals len num c
        ≡ some (record c {
          msg = some 1;
          rem = num - 1;
          pos = address;
          ret = some num;
          need_flush = false;
          flush_cnt = 0;
          cnt = len;
          hw = (readl c.hw i2c_status).1;
        })
  unfolding set_up take_interrupts msm_i2c_interrupt_locked
  set_up_race len num c m idle start empty second many status once = rw (once 0) (
      rw (once 1) (
        rw (once 2) (
          rw (once 3) (
            rw (once 4) (
              rw (once 5) (
                rw (once 6) (
                  rw (once 7) (
                    rw status
                      (rw start (rw empty (rw second (rw (lt→ltb 1 num many) refl))))))))))))

  transfer-IsIdle :
      (msgs : List I2cMsg) (num : ℕ) (c : I2c State)
      → length msgs ≡ num
      → 0 < num
      → All IsBuffered msgs
      → IsUndisturbed
      → Gives
          (λ (r : Code × I2c State). IsIdle r.1)
          (transfer bus nano micro clk_enable clk_disable set_mux_to_i2c arrivals msgs num c)
  unfolding msm_i2c_poll_notbusy
  transfer-IsIdle msgs num c total some_message h q =
      let first = get_elem?-inside msgs 0 (omega (arith, total, some_message)) in
      let c₁ : I2c State = record c {
        msgs = msgs;
        msg = some 0;
        rem = num;
        pos = address;
        ret = some num;
        need_flush = false;
        flush_cnt = 0;
        cnt = first.0.len;
      } in
      let t : IsInTransfer c₁ = record {
        index = 0;
        here = first.0;
        busy = refl;
        found = first.1;
        buffers = h;
        left = omega (arith, total);
        placed = refl;
      } in
      Gives-bind (λ (m : I2cMsg). m ≡ first.0) (λ (r : Code × I2c State). IsIdle r.1)
        (get_elem? msgs 0) _ (first.0, first.1, refl)
        (λ m e.
          Gives-bind IsInTransfer (λ (r : Code × I2c State). IsIdle r.1)
            (set_up bus nano micro clk_enable clk_disable set_mux_to_i2c arrivals m.len num
              (record c { msgs = msgs }))
            _
            (
              record c₁ { cnt = m.len },
              set_up-undisturbed m.len num (record c { msgs = msgs }) q,
              subst (λ (m : I2cMsg). IsInTransfer (record c₁ { cnt = m.len })) (sym e) t,
            )
            (λ b v.
              Gives-bind IsInTransfer (λ (r : Code × I2c State). IsIdle r.1)
                (call_handler bus nano micro clk_enable clk_disable set_mux_to_i2c arrivals b) _
                (subst (Gives IsInTransfer) (sym (call_handler-undisturbed b q))
                  (interrupt_locked-IsInTransfer bus (nano 6) b v))
                (λ d u.
                  Gives-bind (λ (r : Bool × I2c State). IsInTransfer r.1)
                    (λ (r : Code × I2c State). IsIdle r.1)
                    (msm_i2c_poll_notbusy bus nano micro clk_enable clk_disable set_mux_to_i2c
                      arrivals 1 d)
                    _
                    (poll_loop-keeps IsInTransfer
                      (λ k c t. take_interrupts-IsInTransfer bus (nano 6) k c t) moved-IsInTransfer
                      1 200 0 d u)
                    (λ w v. (_, refl, conclude-IsIdle w.0 w.1 v.buffers)))))

  -- A transfer of messages whose buffers have the lengths that they say returns, whatever the hardware
  -- shows and however many interrupts come before each read of the status in the two waits, if none
  -- comes from the first assignment of the set-up to the end of the handler that it calls, although
  -- the interrupt is enabled there: no access leaves the messages or their buffers. Afterwards no transfer is going on, so that a late interrupt only
  -- reads the status, and the buffers still have their lengths.
  pub msm_i2c_xfer_returns :
      (msgs : List I2cMsg) (num : ℕ) (c : I2c State)
      → c.msg ≡ none
      → length msgs ≡ num
      → 0 < num
      → All IsBuffered msgs
      → IsUndisturbed
      → Gives
          (λ (r : Code × I2c State). IsIdle r.1)
          (msm_i2c_xfer bus nano micro clk_enable clk_disable set_mux_to_i2c arrivals msgs num c)
  unfolding msm_i2c_xfer msm_i2c_poll_notbusy
  msm_i2c_xfer_returns msgs num c quiet total some_message h q =
      let c₀ : I2c State = record c {
        msgs = msgs;
        hw = (enable_interrupt_source bus int_pwb_i2c (clk_enable c.hw)).1;
      } in
      let recover =
        msm_i2c_recover_bus_busy bus nano micro clk_enable clk_disable set_mux_to_i2c arrivals in
      Gives-bind (λ (r : Bool × I2c State). IsIdle r.1) (λ (r : Code × I2c State). IsIdle r.1)
        (msm_i2c_poll_notbusy bus nano micro clk_enable clk_disable set_mux_to_i2c arrivals 0 c₀) _
        (poll_loop-keeps IsIdle (λ k d u. take_interrupts-idle bus (nano 6) k d u) (λ d s u. u) 0
          200 0 c₀ (quiet, h))
        (λ w u.
          if-elim (Gives (λ (r : Code × I2c State). IsIdle r.1)) (not w.0 && not (recover w.1.hw).0)
            (λ _. (_, refl, u))
            (λ _.
              transfer-IsIdle msgs num (if w.0 then w.1 else record w.1 { hw = (recover w.1.hw).1 })
                total some_message h q))
