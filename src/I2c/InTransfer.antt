-- ===== src/I2c/InTransfer.antt =====
-- The handler of I2CDxe.c stays inside the messages and their buffers.
use htc_leo_pkg.Prelude.{
  ℕ, zero, suc, ◌+◌, ◌-◌, ◌%◌, ◌^◌, ◌<◌, ◌≡◌, ◌≢◌, refl, ap, sym, ◌∙◌, arith, Option, none, some,
  List, [], ◌∷◌, length, get_elem?, set, length-set, get_elem?-set_self, get_elem?-inside, Bool,
  true, false, not, ◌&&◌, ◌||◌, ltb, ◌==◌, ◌>>=◌, if◌then◌else◌, if-elim, All, ◌⊎◌, inl, inr, Gives,
  Gives-bind, bit_and, ltb→lt,
}
use mathlib.Core.Path.{subst}
use htc_leo_pkg.Bus.{Bus}
use htc_leo_pkg.I2c.{
  I2cMsg, I2c, Pos, address, byte, i2c_status, status_error_mask, status_wr_buffer_full,
  status_rd_buffer_full, put_data, i2c_write_data, i2c_read_data, last_byte, address_word,
  data_word, fill, msm_i2c_fill_write_buffer, take_byte, flush, read_byte, msm_i2c_read_buffer,
  advance, serve, msm_i2c_interrupt_locked, take_interrupts,
}

All-at :
    {A : Type 0} (P : A → Type 0) (xs : List A) (i : ℕ) (x : A)
    → All P xs
    → get_elem? xs i ≡ some x
    → P x
All-at P [] i x h e = absurd (cc e)
All-at P (y ∷ xs) zero x h e = subst P (cc e) h.0
All-at P (y ∷ xs) (suc i) x h e = All-at P xs i x h.1 e

All-set :
    {A : Type 0} (P : A → Type 0) (xs : List A) (i : ℕ) (x : A)
    → All P xs
    → P x
    → All P (set xs i x)
All-set P [] i x h p = tt
All-set P (y ∷ xs) zero x h p = (p, h.1)
All-set P (y ∷ xs) (suc i) x h p = (h.0, All-set P xs i x h.1 p)

inside_length : {A : Type 0} (xs : List A) (i : ℕ) (x : A) → get_elem? xs i ≡ some x → i < length xs
inside_length [] i x e = absurd (cc e)
inside_length (y ∷ xs) zero x e = omega arith
inside_length (y ∷ xs) (suc i) x e = omega (arith, inside_length xs i x e)

Pos-cases : (p : Pos) → (p ≡ address) ⊎ ((k : ℕ) × (p ≡ byte k))
Pos-cases address = inl refl
Pos-cases (byte k) = inr (k, refl)

-- The buffer has the length that the message says.
abbrev pub IsBuffered : I2cMsg → Type 0
IsBuffered m = length m.buf ≡ m.len

-- What has gone and what is left make up the message.
abbrev pub IsPlaced : I2cMsg → ℕ → Pos → Type 0
IsPlaced m cnt address = cnt ≡ m.len
IsPlaced m cnt (byte p) = p + cnt ≡ m.len

-- `msg` points to a message, and `rem` counts it and the ones after it.
pub record IsInTransfer {S : Type 0} (c : I2c S) : Type 0 where
  pub index : ℕ
  pub here : I2cMsg
  pub busy : c.msg ≡ some index
  pub found : get_elem? c.msgs index ≡ some here
  pub buffers : All IsBuffered c.msgs
  pub left : index + c.rem ≡ length c.msgs
  pub placed : IsPlaced here c.cnt c.pos

pub moved-IsInTransfer :
    {S : Type 0} (c : I2c S) (s : S) → IsInTransfer c → IsInTransfer (record c { hw = s })
moved-IsInTransfer c s t = record {
  index = t.index;
  here = t.here;
  busy = t.busy;
  found = t.found;
  buffers = t.buffers;
  left = t.left;
  placed = t.placed;
}

module _ (bus : Bus) (delay : bus.State → bus.State) where
  open bus use {State, readl, writel}

  abbrev Filled : Option (Bool × I2c State) → Type 0
  Filled o = Gives (λ (r : Bool × I2c State). IsInTransfer r.1) o

  -- The message has the length of its buffer.
  here-IsBuffered : (c : I2c State) (t : IsInTransfer c) → IsBuffered t.here
  here-IsBuffered c t = All-at IsBuffered c.msgs t.index t.here t.buffers t.found

  with_current :
      {B : Type 0} (f : ℕ → I2cMsg → Option B) (c : I2c State) (t : IsInTransfer c)
      → (c.msg >>= λ i. get_elem? c.msgs i >>= λ m. f i m) ≡ f t.index t.here
  with_current f c t =
      ap (λ (o : Option ℕ). o >>= λ i. get_elem? c.msgs i >>= λ m. f i m) t.busy
      ∙ ap (λ (o : Option I2cMsg). o >>= λ m. f t.index m) t.found

  fill_byte :
      (c : I2c State) (t : IsInTransfer c) (p : ℕ)
      → c.pos ≡ byte p
      → p + c.cnt ≡ t.here.len
      → Filled (fill bus delay t.here c)
  fill_byte c t p e place =
      rw (e, fill)
        (if-elim Filled (t.here.is_read || (c.cnt == 0)) (λ _. ((false, c), refl, t))
          (λ more.
            let inside =
              get_elem?-inside t.here.buf p (ground (arith, more, place, here-IsBuffered c t)) in
            (
              (
                true,
                record (put_data bus delay (data_word bus delay inside.0 c.cnt c.rem) c) {
                  pos = byte (p + 1);
                  cnt = c.cnt - 1;
                },
              ),
              rw inside.1 refl,
              record {
                index = t.index;
                here = t.here;
                busy = t.busy;
                found = t.found;
                buffers = t.buffers;
                left = t.left;
                placed = ground (arith, more, place);
              },
            )))

  fill_address :
      (c : I2c State) (t : IsInTransfer c)
      → c.pos ≡ address
      → c.cnt ≡ t.here.len
      → Filled (fill bus delay t.here c)
  fill_address c t e place = (
    (true, record (put_data bus delay (address_word bus delay t.here c.rem) c) { pos = byte 0 }),
    rw (e, fill) refl,
    record {
      index = t.index;
      here = t.here;
      busy = t.busy;
      found = t.found;
      buffers = t.buffers;
      left = t.left;
      placed = omega (arith, place);
    },
  )

  fill-IsInTransfer :
      (c : I2c State) (t : IsInTransfer c) → Filled (msm_i2c_fill_write_buffer bus delay c)
  unfolding msm_i2c_fill_write_buffer
  fill-IsInTransfer c t =
      subst Filled (sym (with_current (λ i m. fill bus delay m c) c t)) (elim (Pos-cases c.pos) [
        | inl e ↦ fill_address c t e (subst (IsPlaced t.here c.cnt) e t.placed)
        | inr (p, e) ↦ fill_byte c t p e (subst (IsPlaced t.here c.cnt) e t.placed)
      ])

  abbrev Kept : Option (I2c State) → Type 0
  Kept o = Gives IsInTransfer o

  flush-IsInTransfer : (c : I2c State) → IsInTransfer c → IsInTransfer (flush bus delay c)
  flush-IsInTransfer c t = if-elim IsInTransfer c.need_flush (λ _. moved) (λ _. moved)
    where
      moved :
          {s : State} {need : Bool} {count : ℕ}
          → IsInTransfer (record c { need_flush = need; flush_cnt = count; hw = s })
      moved = record {
        index = t.index;
        here = t.here;
        busy = t.busy;
        found = t.found;
        buffers = t.buffers;
        left = t.left;
        placed = t.placed;
      }

  take_byte-IsInTransfer :
      (c : I2c State) (t : IsInTransfer c) (p : ℕ)
      → p + c.cnt ≡ t.here.len
      → c.cnt ≢ 0
      → Kept (take_byte bus delay t.index t.here p c)
  take_byte-IsInTransfer c t p place more =
      let inside =
        get_elem?-inside t.here.buf p (omega (arith, more, place, here-IsBuffered c t)) in
      let only = (c.cnt == 1) && (p == 0) in
      let s₁ = if only || (c.cnt == 2) then writel c.hw i2c_write_data last_byte else c.hw in
      let m' : I2cMsg = record t.here {
        buf = set t.here.buf p ((readl s₁ i2c_read_data).0 % 2 ^ 8);
      } in
      (
        record c {
          msgs = set c.msgs t.index m';
          need_flush = only || c.need_flush;
          cnt = c.cnt - 1;
          pos = byte (p + 1);
          hw = (readl s₁ i2c_read_data).1;
        },
        rw inside.1 refl,
        record {
          index = t.index;
          here = m';
          busy = t.busy;
          found = get_elem?-set_self c.msgs t.index m' t.here t.found;
          buffers =
              All-set IsBuffered c.msgs t.index m' t.buffers
                (length-set t.here.buf p _ ∙ here-IsBuffered c t);
          left = t.left ∙ sym (length-set c.msgs t.index m');
          placed = omega (arith, more, place);
        },
      )

  read_byte-IsInTransfer :
      (p : Pos) (c : I2c State) (t : IsInTransfer c)
      → IsPlaced t.here c.cnt p
      → Kept (read_byte bus delay t.index t.here p c)
  read_byte-IsInTransfer address c t place = (flush bus delay c, refl, flush-IsInTransfer c t)
  read_byte-IsInTransfer (byte p) c t place =
      if-elim Kept (t.here.is_read && not (c.cnt == 0))
        (λ more. take_byte-IsInTransfer c t p place (ground (arith, more)))
        (λ _. (flush bus delay c, refl, flush-IsInTransfer c t))

  read-IsInTransfer : (c : I2c State) → IsInTransfer c → Kept (msm_i2c_read_buffer bus delay c)
  unfolding msm_i2c_read_buffer
  read-IsInTransfer c t =
      subst Kept (sym (with_current (λ i m. read_byte bus delay i m c.pos c) c t))
        (read_byte-IsInTransfer c.pos c t t.placed)

  advance-IsInTransfer :
      (not_done : Bool) (p : Pos) (c : I2c State)
      → IsInTransfer c
      → Kept (advance bus delay not_done p c)
  advance-IsInTransfer not_done address c t = (c, refl, t)
  advance-IsInTransfer not_done (byte p) c t =
      if-elim Kept (not (c.cnt == 0)) (λ _. (c, refl, t))
        (λ _.
          if-elim Kept (ltb 1 c.rem) (λ more. next more)
            (λ _.
              if-elim (λ (d : I2c State). Kept (some d)) (not not_done && not c.need_flush)
                (λ _. (
                  record c { timed_out = false },
                  refl,
                  record {
                    index = t.index;
                    here = t.here;
                    busy = t.busy;
                    found = t.found;
                    buffers = t.buffers;
                    left = t.left;
                    placed = t.placed;
                  },
                ))
                (λ _. (c, refl, t))))
    where
      next :
          ltb 1 c.rem ≡ true
          → Kept (
              c.msg >>= λ i. get_elem? c.msgs (i + 1) >>= λ m.
              some (record c { rem = c.rem - 1; msg = some (i + 1); pos = address; cnt = m.len }))
      next more =
          let inside =
            get_elem?-inside c.msgs (t.index + 1) (omega (arith, ltb→lt _ _ more, t.left)) in
          (
            record c {
              rem = c.rem - 1;
              msg = some (t.index + 1);
              pos = address;
              cnt = inside.0.len;
            },
            ap
                  (λ (o : Option ℕ). o >>= λ i. get_elem? c.msgs (i + 1) >>= λ m.
                    some (record c {
                      rem = c.rem - 1;
                      msg = some (i + 1);
                      pos = address;
                      cnt = m.len;
                    }))
                  t.busy
                ∙ ap
                    (λ (o : Option I2cMsg). o >>= λ m. some (record c {
                      rem = c.rem - 1;
                      msg = some (t.index + 1);
                      pos = address;
                      cnt = m.len;
                    }))
                    inside.1,
            record {
              index = t.index + 1;
              here = inside.0;
              busy = refl;
              found = inside.1;
              buffers = t.buffers;
              left = omega (arith, ltb→lt _ _ more, t.left);
              placed = refl;
            },
          )

  serve-IsInTransfer :
      (status : ℕ) (c : I2c State) → IsInTransfer c → Kept (serve bus delay status c)
  serve-IsInTransfer status c t =
      Gives-bind (λ (r : Bool × I2c State). IsInTransfer r.1) IsInTransfer
        (if bit_and status status_wr_buffer_full == 0
          then msm_i2c_fill_write_buffer bus delay c
          else some (true, c))
        _
        (if-elim Filled (bit_and status status_wr_buffer_full == 0) (λ _. fill-IsInTransfer c t)
          (λ _. ((true, c), refl, t)))
        (λ r u.
          Gives-bind IsInTransfer IsInTransfer
            (if bit_and status status_rd_buffer_full == 0
              then some r.1
              else msm_i2c_read_buffer bus delay r.1)
            _
            (if-elim Kept (bit_and status status_rd_buffer_full == 0) (λ _. (r.1, refl, u))
              (λ _. read-IsInTransfer r.1 u))
            (λ d v. advance-IsInTransfer r.0 d.pos d v))

  -- In a transfer the handler, whatever the status and the data that it reads, touches no byte outside
  -- of a buffer and no message outside of the array, and leaves the transfer well-formed: `msg` points
  -- to a message, `rem` counts the messages from it on, the bytes gone and the bytes left make up its
  -- length, and every buffer has the length that its message says.
  pub interrupt_locked-IsInTransfer :
      (c : I2c State) → IsInTransfer c → Kept (msm_i2c_interrupt_locked bus delay c)
  unfolding msm_i2c_interrupt_locked
  interrupt_locked-IsInTransfer c t =
      let status = (readl c.hw i2c_status).0 in
      let c₁ : I2c State = record c { hw = (readl c.hw i2c_status).1 } in
      let t₁ = moved-IsInTransfer c (readl c.hw i2c_status).1 t in
      let failed : I2c State = record c₁ { ret = none; timed_out = true } in
      subst
        (λ (o : Option ℕ). Kept (elim o [
          | none ↦ some c₁
          | some i ↦
              if not (bit_and status status_error_mask == 0)
              then some failed
              else serve bus delay status c₁
        ]))
        (sym t.busy)
        (if-elim Kept (not (bit_and status status_error_mask == 0))
          (λ _. (
            failed,
            refl,
            record {
              index = t.index;
              here = t.here;
              busy = t.busy;
              found = t.found;
              buffers = t.buffers;
              left = t.left;
              placed = t.placed;
            },
          ))
          (λ _. serve-IsInTransfer status c₁ t₁))

  pub take_interrupts-IsInTransfer :
      (k : ℕ) (c : I2c State) → IsInTransfer c → Kept (take_interrupts bus delay k c)
  unfolding take_interrupts
  take_interrupts-IsInTransfer zero c t = (c, refl, t)
  take_interrupts-IsInTransfer (suc k) c t =
      Gives-bind IsInTransfer IsInTransfer (msm_i2c_interrupt_locked bus delay c)
        (take_interrupts bus delay k) (interrupt_locked-IsInTransfer c t)
        (λ d u. take_interrupts-IsInTransfer k d u)

  -- Outside of a transfer the handler only reads the status.
  pub interrupt-idle :
      (c : I2c State)
      → c.msg ≡ none
      → msm_i2c_interrupt_locked bus delay c ≡ some (record c { hw = (readl c.hw i2c_status).1 })
  unfolding msm_i2c_interrupt_locked
  interrupt-idle c e =
      let c₁ : I2c State = record c { hw = (readl c.hw i2c_status).1 } in
      ap
        (λ (o : Option ℕ). elim o [
          | none ↦ some c₁
          | some i ↦
              if not (bit_and (readl c.hw i2c_status).0 status_error_mask == 0)
              then some (record c₁ { ret = none; timed_out = true })
              else serve bus delay (readl c.hw i2c_status).0 c₁
        ])
        e

  pub take_interrupts-idle :
      (k : ℕ) (c : I2c State)
      → (c.msg ≡ none) × All IsBuffered c.msgs
      → Gives
          (λ (d : I2c State). (d.msg ≡ none) × All IsBuffered d.msgs)
          (take_interrupts bus delay k c)
  unfolding take_interrupts
  take_interrupts-idle zero c h = (c, refl, h)
  take_interrupts-idle (suc k) c h =
      let d : I2c State = record c { hw = (readl c.hw i2c_status).1 } in
      let r = take_interrupts-idle k d h in
      (
        r.0,
        ap (λ (o : Option (I2c State)). o >>= take_interrupts bus delay k) (interrupt-idle c h.0)
            ∙ r.1,
        r.2,
      )
