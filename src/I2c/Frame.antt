-- ===== src/I2c/Frame.antt =====
-- The words that the handler of I2CDxe.c writes for a message to a chip, on a controller that takes
-- every word at once: its status is 0, and it records what is written to I2C_WRITE_DATA.
use mathlib.Core.Path.{subst, fun_ext}
use htc_leo_pkg.Prelude.{
  ℕ, zero, suc, ◌+◌, ◌-◌, ◌≡◌, refl, ap, ap₂, sym, ◌∙◌, arith, Option, none, some, List, [], ◌∷◌,
  ◌++◌, length, length-append, append_assoc, append_nil, get_elem?, Bool, false, bit_or, ◌==◌,
  ◌>>=◌, if◌then◌else◌, ==_ne, ◌*◌, ◌%◌, ◌^◌, ◌<◌, ◌&&◌, true, Bool-cases, inl, inr,
}
use htc_leo_pkg.Bus.{Bus}
use htc_leo_pkg.I2c.{
  I2cMsg, I2c, Pos, address, byte, i2c_write_data, last_byte, addr_byte, msm_i2c_fill_write_buffer,
  msm_i2c_read_buffer, msm_i2c_interrupt_locked, take_interrupts, address_word,
}

abbrev pub recorder : Bus
recorder = record {
  State = List ℕ;
  readl = λ s a. (0, s);
  writel = λ s a v. if a == i2c_write_data then s ++ (v ∷ []) else s;
}

abbrev pub no_delay : List ℕ → List ℕ
no_delay s = s

-- The data, with the last byte marked.
abbrev pub marked : List ℕ → List ℕ
marked [] = []
marked (b ∷ []) = bit_or b last_byte ∷ []
marked (b ∷ (d ∷ rest)) = b ∷ marked (d ∷ rest)

-- A write of one message, from `pos` on with `cnt` bytes left.
abbrev pub writing : I2cMsg → Pos → ℕ → Bool → List ℕ → I2c (List ℕ)
writing m pos cnt timed_out log = record {
  msgs = m ∷ [];
  msg = some 0;
  rem = 1;
  pos = pos;
  cnt = cnt;
  ret = some 1;
  need_flush = false;
  flush_cnt = 0;
  timed_out = timed_out;
  hw = log;
}

at_length : (pre rest : List ℕ) (b : ℕ) → get_elem? (pre ++ (b ∷ rest)) (length pre) ≡ some b
at_length [] rest b = refl
at_length (a ∷ pre) rest b = at_length pre rest b

-- The word for a byte with `bs` after it.
abbrev word : ℕ → List ℕ → ℕ
word b [] = bit_or b last_byte
word b (d ∷ rest) = b

data_step :
    (addr : ℕ) (pre bs : List ℕ) (b : ℕ) (t : Bool) (log : List ℕ)
    → let m : I2cMsg = record {
      addr = addr;
      is_read = false;
      len = length (pre ++ (b ∷ bs));
      buf = pre ++ (b ∷ bs);
    } in
      msm_i2c_interrupt_locked recorder no_delay
        (writing m (byte (length pre)) (suc (length bs)) t log)
      ≡ some (writing m (byte (length pre + 1)) (length bs) t (log ++ (word b bs ∷ [])))
unfolding msm_i2c_interrupt_locked msm_i2c_fill_write_buffer msm_i2c_read_buffer
data_step addr pre [] b t log = rw (at_length pre [] b) refl
data_step addr pre (d ∷ rest) b t log =
    let n = length rest in
    let one_less : suc (suc n) - 1 ≡ suc n = omega arith in
    rw (at_length pre (d ∷ rest) b) (
      rw (==_ne (suc (suc n)) 0 (omega arith)) (
        rw (==_ne (suc (suc n)) 1 (omega arith))
          (rw one_less (rw (==_ne (suc n) 0 (omega arith)) refl))))

-- A write of a whole buffer.
abbrev pub message : ℕ → List ℕ → I2cMsg
message addr buf = record { addr = addr; is_read = false; len = length buf; buf = buf }

data_step_of :
    (addr : ℕ) (buf pre bs : List ℕ) (b : ℕ) (t : Bool) (log : List ℕ)
    → buf ≡ pre ++ (b ∷ bs)
    → msm_i2c_interrupt_locked recorder no_delay
        (writing (message addr buf) (byte (length pre)) (suc (length bs)) t log)
      ≡ some (
          writing
            (message addr buf)
            (byte (length pre + 1))
            (length bs)
            t
            (log ++ (word b bs ∷ [])))
data_step_of addr buf pre bs b t log e =
    subst
      (λ (u : List ℕ).
        msm_i2c_interrupt_locked recorder no_delay
          (writing (message addr u) (byte (length pre)) (suc (length bs)) t log)
        ≡ some (
            writing (message addr u) (byte (length pre + 1)) (length bs) t
              (log ++ (word b bs ∷ []))))
      (sym e) (data_step addr pre bs b t log)

marked-word : (b : ℕ) (bs : List ℕ) → marked (b ∷ bs) ≡ word b bs ∷ marked bs
marked-word b [] = refl
marked-word b (d ∷ rest) = refl

data_steps :
    (addr : ℕ) (buf pre rest : List ℕ) (t : Bool) (log : List ℕ)
    → buf ≡ pre ++ rest
    → take_interrupts recorder no_delay
        (length rest)
        (writing (message addr buf) (byte (length pre)) (length rest) t log)
      ≡ some (writing (message addr buf) (byte (length buf)) 0 t (log ++ marked rest))
unfolding take_interrupts
data_steps addr buf pre [] t log e =
    ap₂ (λ (k : ℕ) (l : List ℕ). some (writing (message addr buf) (byte k) 0 t l))
      (sym (ap length (e ∙ append_nil pre))) (sym (append_nil log))
data_steps addr buf pre (b ∷ bs) t log e =
    ap (λ (o : Option (I2c (List ℕ))). o >>= take_interrupts recorder no_delay (length bs))
      (data_step_of addr buf pre bs b t log e)
    ∙ (ap
          (λ (k : ℕ).
            take_interrupts recorder no_delay (length bs)
              (writing (message addr buf) (byte k) (length bs) t (log ++ (word b bs ∷ []))))
          (sym (length-append pre (b ∷ [])))
        ∙ (data_steps addr buf (pre ++ (b ∷ [])) bs t (log ++ (word b bs ∷ []))
              (e ∙ sym (append_assoc pre (b ∷ []) bs))
            ∙ ap (λ (l : List ℕ). some (writing (message addr buf) (byte (length buf)) 0 t l))
                (append_assoc log (word b bs ∷ []) (marked bs)
                  ∙ ap (λ (l : List ℕ). log ++ l) (sym (marked-word b bs)))))

address_step :
    (addr : ℕ) (buf : List ℕ) (t : Bool) (log : List ℕ)
    → msm_i2c_interrupt_locked recorder no_delay
        (writing (message addr buf) address (length buf) t log)
      ≡ some (
          writing
            (message addr buf)
            (byte 0)
            (length buf)
            t
            (log ++ (address_word recorder no_delay (message addr buf) 1 ∷ [])))
unfolding msm_i2c_interrupt_locked msm_i2c_fill_write_buffer msm_i2c_read_buffer
address_step addr [] t log = refl
address_step addr (b ∷ bs) t log = rw (==_ne (suc (length bs)) 0 (omega arith)) refl

last_step :
    (addr k : ℕ) (buf : List ℕ) (t : Bool) (log : List ℕ)
    → msm_i2c_interrupt_locked recorder no_delay (writing (message addr buf) (byte k) 0 t log)
      ≡ some (writing (message addr buf) (byte k) 0 false log)
unfolding msm_i2c_interrupt_locked msm_i2c_fill_write_buffer msm_i2c_read_buffer
last_step addr k buf t log = refl

bind_assoc :
    {A B C : Type 0} (o : Option A) (f : A → Option B) (g : B → Option C)
    → ((o >>= f) >>= g) ≡ (o >>= λ a. f a >>= g)
bind_assoc none f g = refl
bind_assoc (some a) f g = refl

take_add :
    (a b : ℕ) (c : I2c (List ℕ))
    → take_interrupts recorder no_delay (a + b) c
      ≡ (take_interrupts recorder no_delay a c >>= take_interrupts recorder no_delay b)
unfolding take_interrupts
take_add zero b c = ap (λ (k : ℕ). take_interrupts recorder no_delay k c) (omega arith)
take_add (suc a) b c =
    let same : suc a + b ≡ suc (a + b) = omega arith in
    ap (λ (k : ℕ). take_interrupts recorder no_delay k c) same
    ∙ (ap
          (λ (f : I2c (List ℕ) → Option (I2c (List ℕ))).
            msm_i2c_interrupt_locked recorder no_delay c >>= f)
          (fun_ext (λ d. take_add a b d))
        ∙ sym (bind_assoc (msm_i2c_interrupt_locked recorder no_delay c) _ _))

-- The word for a 7-bit address: bit 8 marks it, bit 0 is clear for a write, and bit 9, which ends the
-- message, is set if no data follows.
abbrev pub address_frame : ℕ → List ℕ → ℕ
address_frame addr [] = 512 + 256 + addr * 2
address_frame addr (b ∷ bs) = 256 + addr * 2

-- `p` holds of all numbers below `n`.
abbrev all_below : ℕ → (ℕ → Bool) → Bool
all_below zero p = true
all_below (suc n) p = p n && all_below n p

all_below_lem : (n a : ℕ) (p : ℕ → Bool) → all_below n p ≡ true → a < n → p a ≡ true
all_below_lem zero a p e h = absurd (omega arith)
all_below_lem (suc n) a p e h = elim (Bool-cases (a == n)) [
  | inl s ↦ let t : a ≡ n = ground (arith, s) in rw t (and_first (p n) _ e)
  | inr o ↦ all_below_lem n a p (and_second (p n) _ e) (ground (arith, o))
]
  where
    and_first : (x y : Bool) → (x && y) ≡ true → x ≡ true
    and_first true y e = refl
    and_first false y e = e

    and_second : (x y : Bool) → (x && y) ≡ true → y ≡ true
    and_second true y e = e
    and_second false y e = absurd (cc e)

seven_bits :
    (addr : ℕ)
    → addr < 128
    → (bit_or addr_byte (addr * 2) % 2 ^ 16 ≡ 256 + addr * 2)
      × (bit_or (256 + addr * 2) last_byte ≡ 512 + 256 + addr * 2)
seven_bits addr h =
    let a = all_below_lem 128 addr (λ k. bit_or addr_byte (k * 2) % 2 ^ 16 == 256 + k * 2) refl h in
    let b =
      all_below_lem 128 addr (λ k. bit_or (256 + k * 2) last_byte == 512 + 256 + k * 2) refl h in
    (ground (arith, a), ground (arith, b))

address_word-frame :
    (addr : ℕ) (buf : List ℕ)
    → addr < 128
    → address_word recorder no_delay (message addr buf) 1 ≡ address_frame addr buf
address_word-frame addr [] h = rw ((seven_bits addr h).0) ((seven_bits addr h).1)
address_word-frame addr (b ∷ bs) h =
    rw (==_ne (suc (length bs)) 0 (omega arith)) ((seven_bits addr h).0)

-- For a message of `n` bytes to a chip with a 7-bit address, `n + 2` runs of the handler write the
-- word for the address, with bit 8 set and the read bit clear, and then the bytes in order, with the
-- mark of the last byte on the last one only (on the address word if there is none), and end the
-- transfer with no time-out.
pub write_frame :
    (addr : ℕ) (buf : List ℕ) (t : Bool)
    → addr < 128
    → take_interrupts recorder no_delay
        (suc (length buf + 1))
        (writing (message addr buf) address (length buf) t [])
      ≡ some (
          writing
            (message addr buf)
            (byte (length buf))
            0
            false
            (address_frame addr buf ∷ marked buf))
unfolding take_interrupts
write_frame addr buf t h =
    let a = address_word recorder no_delay (message addr buf) 1 ∷ [] in
    ap (λ (o : Option (I2c (List ℕ))). o >>= take_interrupts recorder no_delay (length buf + 1))
      (address_step addr buf t [])
    ∙ (take_add (length buf) 1 (writing (message addr buf) (byte 0) (length buf) t a)
        ∙ (ap (λ (o : Option (I2c (List ℕ))). o >>= take_interrupts recorder no_delay 1)
              (data_steps addr buf [] buf t a refl)
            ∙ (ap (λ (o : Option (I2c (List ℕ))). o >>= take_interrupts recorder no_delay 0)
                  (last_step addr (length buf) buf t (a ++ marked buf))
                ∙ ap
                    (λ (w : ℕ).
                      some
                        (writing (message addr buf) (byte (length buf)) 0 false (w ∷ marked buf)))
                    (address_word-frame addr buf h))))
