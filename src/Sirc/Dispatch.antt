-- ===== src/Sirc/Dispatch.antt =====
-- Which lines an interrupt serves.
use htc_leo_pkg.Prelude.{
  ℕ, zero, suc, ◌+◌, ◌-◌, ◌*◌, ◌%◌, ◌^◌, ◌≤◌, ◌<◌, ◌≡◌, refl, ap, sym, ◌∙◌, arith, none, some, inl,
  inr, Bool, true, false, ◌&&◌, bit_and, bit_or, ◌==◌, leb, ltb, if◌then◌else◌, get_or, set, length,
  get_or-set_self, get_or-set_ne, get_or-past_end, length-set, Bool-cases, Option-cases,
}
use htc_leo_pkg.Word.{
  bit_at, test_bit, test_bit-or, test_bit-bit_at, bit_and-bit_at, test_bit-lt, test_bit-zero,
}
use mathlib.Core.List.{List}
use native.Mathlib.Nat.{one-le-pow}
use htc_leo_pkg.Bus.{Bus}
use htc_leo_pkg.Sirc.{
  Sirc, SircLine, num_lines, no_line, dispatch_line, dispatch_lines, sirc_interrupt_handler,
  irq0_status, int_ack,
}

abbrev pub has_handler : {H : Type 0} → SircLine H → Bool
has_handler l = elim l.handler [ none ↦ false | some h ↦ true ]

-- `status` has the line pending and `s` has a handler for it.
abbrev pub is_served : {H S : Type 0} → ℕ → Sirc H S → ℕ → Bool
is_served status s k = (test_bit status k == 1) && has_handler (get_or s.lines k no_line)

module _ (bus : Bus) (H : Type 0) (call : H → ℕ → Sirc H bus.State → Sirc H bus.State) where
  open bus use {State, readl, writel}

  -- Handlers do not claim or release lines themselves, and leave the counters alone.
  abbrev pub KeepsTable : Type 0
  KeepsTable =
      (h : H) (c : ℕ) (s : Sirc H State)
      → ((call h c s).lines ≡ s.lines) × ((call h c s).irq_count ≡ s.irq_count)

  -- What a walk over the lines that `walked` accepts has done, from `(ack, s)` to `out`.
  record Served (status : ℕ) (walked : ℕ → Bool) (ack : ℕ) (s : Sirc H State)
      (out : ℕ × Sirc H State) : Type 0 where
    same_lines : out.1.lines ≡ s.lines
    same_length : length out.1.irq_count ≡ length s.irq_count
    acks :
        (k : ℕ)
        → test_bit out.0 k ≡ (if walked k && is_served status s k then 1 else test_bit ack k)
    counts :
        (k : ℕ)
        → k < length s.irq_count
        → get_or out.1.irq_count k 0 ≡ (
            if walked k && is_served status s k
            then (get_or s.irq_count k 0 + 1) % 2 ^ 64
            else get_or s.irq_count k 0)

  is_pending : (status line : ℕ) → (bit_and status (bit_at line) == 0) ≡ (test_bit status line == 0)
  is_pending status line = ground (
    arith,
    bit_and-bit_at status line,
    test_bit-lt status line,
    one-le-pow line 2,
    two_values (test_bit status line) (2 ^ line) (test_bit-lt status line),
  )
    where
      two_values : (t p : ℕ) → t < 2 → t * p ≡ (if t == 0 then 0 else p)
      two_values t p h = elim (Bool-cases (t == 0)) [
        | inl e ↦ let z : t ≡ 0 = ground arith in rw (e, z) (omega arith)
        | inr e ↦ let o : t ≡ 1 = ground arith in rw (e, o) (omega arith)
      ]

  skip_line :
      (status line ack : ℕ) (s : Sirc H State)
      → is_served status s line ≡ false
      → dispatch_line bus H call status line (ack, s) ≡ (ack, s)
  unfolding dispatch_line
  skip_line status line ack s h = ground (arith, is_pending status line, test_bit-lt status line)

  -- The state in which the handler is called.
  abbrev counted : ℕ → Sirc H State → Sirc H State
  counted line s = record s {
    irq_count = set s.irq_count line ((get_or s.irq_count line 0 + 1) % 2 ^ 64);
  }

  -- What serving a line does to the driver: its counter goes up, then its handler is called.
  abbrev pub handled : ℕ → Sirc H State → Sirc H State
  handled line s = elim (get_or s.lines line no_line).handler [
    | none ↦ s
    | some h ↦ call h (get_or s.lines line no_line).context (counted line s)
  ]

  -- The lines from `num_lines - left` on are served in order, those that are pending with a handler.
  abbrev pub serve_all : ℕ → ℕ → Sirc H State → Sirc H State
  serve_all zero status s = s
  serve_all (suc left) status s =
      let line = num_lines - suc left in
      serve_all left status (if is_served status s line then handled line s else s)

  serve_all-idle : (left : ℕ) (s : Sirc H State) → serve_all left 0 s ≡ s
  serve_all-idle zero s = refl
  serve_all-idle (suc left) s =
      let line = num_lines - suc left in
      let idle : is_served 0 s line ≡ false = ground (arith, test_bit-zero line) in
      rw idle (serve_all-idle left s)

  dispatch_line-handled :
      (status line ack : ℕ) (s : Sirc H State)
      → (dispatch_line bus H call status line (ack, s)).1
        ≡ (if is_served status s line then handled line s else s)
  unfolding dispatch_line
  dispatch_line-handled status line ack s =
      elim (Option-cases (get_or s.lines line no_line).handler) [
        | inl e ↦ ground (arith, is_pending status line, test_bit-lt status line)
        | inr (h, e) ↦ ground (arith, is_pending status line, test_bit-lt status line)
      ]

  dispatch_lines-serve_all :
      (left status ack : ℕ) (s : Sirc H State)
      → (dispatch_lines bus H call left status (ack, s)).1 ≡ serve_all left status s
  unfolding dispatch_lines
  dispatch_lines-serve_all zero status ack s = refl
  dispatch_lines-serve_all (suc left) status ack s =
      let line = num_lines - suc left in
      let (ack', s') = dispatch_line bus H call status line (ack, s) in
      dispatch_lines-serve_all left status ack' s'
      ∙ ap (serve_all left status) (dispatch_line-handled status line ack s)

  serve_line :
      (status line ack : ℕ) (s : Sirc H State)
      → is_served status s line ≡ true
      → (h : H) × (c : ℕ) × (dispatch_line bus H call status line (ack, s)
          ≡ (bit_or ack (bit_at line), call h c (counted line s)))
  unfolding dispatch_line
  serve_line status line ack s served = elim (Option-cases (get_or s.lines line no_line).handler) [
    | inl e ↦ ground arith
    | inr (h, e) ↦
        (h, (get_or s.lines line no_line).context, ground (arith, is_pending status line))
  ]

  skipped-Served :
      (status line ack : ℕ) (s : Sirc H State)
      → is_served status s line ≡ false
      → Served status (λ k. line == k) ack s (ack, s)
  skipped-Served status line ack s h = record {
    same_lines = refl;
    same_length = refl;
    acks = λ k. ground arith;
    counts = λ k p. ground arith;
  }

  called-Served :
      (status line ack : ℕ) (s : Sirc H State) (h : H) (c : ℕ)
      → KeepsTable
      → is_served status s line ≡ true
      → Served status (λ k. line == k) ack s (bit_or ack (bit_at line), call h c (counted line s))
  called-Served status line ack s h c keeps served =
      let kept = keeps h c (counted line s) in
      record {
        same_lines = kept.0;
        same_length = ap length kept.1 ∙ length-set s.irq_count line _;
        acks = λ k.
            ground
              (arith, test_bit-or ack (bit_at line) k, test_bit-bit_at line k, test_bit-lt ack k);
        counts = λ k p. ground (
          arith,
          kept.1,
          get_or-set_self s.irq_count line ((get_or s.irq_count line 0 + 1) % 2 ^ 64) 0,
          get_or-set_ne s.irq_count line k ((get_or s.irq_count line 0 + 1) % 2 ^ 64) 0,
        );
      }

  dispatch_line-Served :
      (status line ack : ℕ) (s : Sirc H State)
      → KeepsTable
      → Served status (λ k. line == k) ack s (dispatch_line bus H call status line (ack, s))
  dispatch_line-Served status line ack s keeps = elim (Bool-cases (is_served status s line)) [
    | inl served ↦
        let (h, c, e) = serve_line status line ack s served in
        rw e (called-Served status line ack s h c keeps served)
    | inr idle ↦ rw (skip_line status line ack s idle) (skipped-Served status line ack s idle)
  ]

  -- The lines from `num_lines - left` on.
  abbrev last_lines : ℕ → ℕ → Bool
  last_lines left k = leb (num_lines - left) k && ltb k num_lines

  served_same :
      (status k : ℕ) (s t : Sirc H State)
      → t.lines ≡ s.lines
      → is_served status t k ≡ is_served status s k
  served_same status k s t e =
      ap (λ (l : List (SircLine H)). (test_bit status k == 1) && has_handler (get_or l k no_line)) e

  dispatch_lines-Served :
      (left status ack : ℕ) (s : Sirc H State)
      → KeepsTable
      → left ≤ num_lines
      → Served status (last_lines left) ack s (dispatch_lines bus H call left status (ack, s))
  unfolding dispatch_lines
  dispatch_lines-Served zero status ack s keeps h = record {
    same_lines = refl;
    same_length = refl;
    acks = λ k. ground arith;
    counts = λ k p. ground arith;
  }
  dispatch_lines-Served (suc left) status ack s keeps h =
      let line = num_lines - suc left in
      let one = dispatch_line-Served status line ack s keeps in
      let (ack', s') = dispatch_line bus H call status line (ack, s) in
      let rest = dispatch_lines-Served left status ack' s' keeps (omega arith) in
      record {
        same_lines = rest.same_lines ∙ one.same_lines;
        same_length = rest.same_length ∙ one.same_length;
        acks =
            λ k. ground (arith, rest.acks k, one.acks k, served_same status k s s' one.same_lines);
        counts = λ k p. ground (
          arith,
          rest.counts k,
          one.counts k,
          one.same_length,
          served_same status k s s' one.same_lines,
        );
      }

  -- An interrupt calls the handlers of the pending lines that have one, in the order of the lines,
  -- each after the counter of its line went up by one modulo 2 ^ 64, and does nothing else but read
  -- the status before and, if there is such a line, write one acknowledgement at the end, which has
  -- exactly these lines. The other counters stay. Handlers must leave the table and the counters
  -- alone.
  pub sirc_interrupt_handler_lem :
      (s : Sirc H State)
      → KeepsTable
      → length s.irq_count ≡ num_lines
      → let (status, hw) = readl s.hw irq0_status in
        (ack : ℕ) × (s' : Sirc H State) × (s' ≡ serve_all num_lines status (record s { hw = hw }))
        × (sirc_interrupt_handler bus H call s
            ≡ (if ack == 0 then s' else record s' { hw = writel s'.hw int_ack ack }))
        × (s'.lines ≡ s.lines)
        × ((k : ℕ) → test_bit ack k ≡ (if ltb k num_lines && is_served status s k then 1 else 0))
        × ((k : ℕ)
            → get_or s'.irq_count k 0 ≡ (
                if ltb k num_lines && is_served status s k
                then (get_or s.irq_count k 0 + 1) % 2 ^ 64
                else get_or s.irq_count k 0))
  unfolding sirc_interrupt_handler
  sirc_interrupt_handler_lem s keeps len = elim (Bool-cases ((readl s.hw irq0_status).0 == 0)) [
    | inl idle ↦
        let z : (readl s.hw irq0_status).0 ≡ 0 = ground arith in
        (
          0,
          record s { hw = (readl s.hw irq0_status).1 },
          rw z (sym (serve_all-idle num_lines (record s { hw = (readl s.hw irq0_status).1 }))),
          rw idle,
          refl,
          λ k. ground (arith, test_bit-zero k, z),
          λ k. ground (arith, test_bit-zero k, z),
        )
    | inr busy ↦
        let status = (readl s.hw irq0_status).0 in
        let s₀ : Sirc H State = record s { hw = (readl s.hw irq0_status).1 } in
        let all = dispatch_lines-Served num_lines status 0 s₀ keeps (omega arith) in
        let (ack, s') = dispatch_lines bus H call num_lines status (0, s₀) in
        (
          ack,
          s',
          dispatch_lines-serve_all num_lines status 0 s₀,
          rw busy,
          all.same_lines,
          λ k. ground (arith, all.acks k, test_bit-zero k),
          λ k. ground (
            arith,
            all.counts k,
            all.same_length,
            get_or-past_end s.irq_count k 0,
            get_or-past_end s'.irq_count k 0,
          ),
        )
  ]
