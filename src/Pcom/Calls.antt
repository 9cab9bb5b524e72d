-- ===== src/Pcom/Calls.antt =====
-- What a call of pcom.c returns, for a modem that answers.
use mathlib.Core.Path.{subst}
use htc_leo_pkg.Prelude.{
  ℕ, ◌-◌, ◌<◌, ◌^◌, ◌≡◌, refl, ap, ◌∙◌, Option, some, ◌==◌, if◌then◌else◌, ==_refl, Bool-cases, inl,
  inr, none, arith,
}
use htc_leo_pkg.Bus.{Bus}
use htc_leo_pkg.Bus.Poll.{polled, wait_until_returns}
use htc_leo_pkg.Pcom.{
  app_command, app_status, app_data1, app_data2, mdm_status, pcom_cmd_done, pcom_ready,
  pcom_cmd_fail, pcom_cmd_idle, Reply, pcom_wait_for, notify_modem, send, receive, msm_proc_comm,
}

module _ (bus : Bus) (pause : bus.State → bus.State) (n : ℕ) where
  open bus use {State, readl, writel}

  -- Within `n` reads the register shows the value.
  abbrev pub IsAwaited : ℕ → ℕ → State → Type 0
  IsAwaited addr value s = (k : ℕ) × (k < n) × ((readl (polled bus pause k addr s) addr).0 ≡ value)

  -- After fewer than `n` reads of the register, with the pauses between them, the next read shows the
  -- value, and `s'` is the hardware after it.
  abbrev pub IsWaited : ℕ → ℕ → State → State → Type 0
  IsWaited addr value s s' =
      (k : ℕ) × (k < n)
      × ((readl (polled bus pause k addr s) addr).0 ≡ value)
      × (s' ≡ (readl (polled bus pause k addr s) addr).1)

  pcom_wait_for_returns :
      (addr value : ℕ) (s : State)
      → IsAwaited addr value s
      → (s' : State) × IsWaited addr value s s' × (pcom_wait_for bus pause n addr value s ≡ some s')
  pcom_wait_for_returns addr value s (k, h, e) =
      let (j, le, now, r) =
        wait_until_returns bus (λ v. v == value) pause n k addr s h
          (ap (λ (v : ℕ). v == value) e ∙ ==_refl value) in
      ((readl (polled bus pause j addr s) addr).1, (j, omega arith, ground (arith, now), refl), r)

  -- The word for a pointer, NULL being 0.
  abbrev pub word_of : Option ℕ → ℕ
  word_of none = 0
  word_of (some v) = v

  -- The command with its two words is in the shared memory, and the modem is told.
  abbrev pub requested : ℕ → Option ℕ → Option ℕ → State → State
  requested cmd data1 data2 s =
      writel
        (writel (writel (writel s 0x00100000 cmd) 0x00100008 (word_of data1)) 0x0010000c
          (word_of data2))
        0xac100418 1

  -- A word that was asked for is read.
  abbrev pub answer : Option ℕ → ℕ → State → Option ℕ × State
  answer none addr s = (none, s)
  answer (some _) addr s = (some (readl s addr).0, (readl s addr).1)

  -- `r` is what a call gives when the modem has answered in `t`.
  abbrev pub IsReply : Option ℕ → Option ℕ → State → Reply State → Type 0
  IsReply data1 data2 t r =
      let (status, t₁) = readl t app_status in
      let (v1, t₂) = answer data1 app_data1 t₁ in
      let (v2, t₃) = answer data2 app_data2 t₂ in
      (r.ret ≡ (if status == pcom_cmd_fail then 2 ^ 32 - 1 else 0))
      × (r.data1 ≡ (if status == pcom_cmd_fail then data1 else v1))
      × (r.data2 ≡ (if status == pcom_cmd_fail then data2 else v2))
      × (r.hw ≡ writel (if status == pcom_cmd_fail then t₁ else t₃) app_command pcom_cmd_idle)

  -- `t` is the hardware when the modem, found ready in `s`, has done what it is asked for.
  abbrev pub IsAnswered : ℕ → Option ℕ → Option ℕ → State → State → Type 0
  IsAnswered cmd data1 data2 s t =
      (s' : State) × IsWaited mdm_status pcom_ready s s'
      × IsWaited app_command pcom_cmd_done (requested cmd data1 data2 s') t

  receive-IsReply :
      (data1 data2 : Option ℕ) (t : State)
      → IsReply data1 data2 t (receive bus pause n data1 data2 t)
  receive-IsReply none none t = elim (Bool-cases ((readl t app_status).0 == pcom_cmd_fail)) [
    | inl e ↦ rw e (refl, refl, refl, refl)
    | inr e ↦ rw e (refl, refl, refl, refl)
  ]
  receive-IsReply none (some w) t = elim (Bool-cases ((readl t app_status).0 == pcom_cmd_fail)) [
    | inl e ↦ rw e (refl, refl, refl, refl)
    | inr e ↦ rw e (refl, refl, refl, refl)
  ]
  receive-IsReply (some v) none t = elim (Bool-cases ((readl t app_status).0 == pcom_cmd_fail)) [
    | inl e ↦ rw e (refl, refl, refl, refl)
    | inr e ↦ rw e (refl, refl, refl, refl)
  ]
  receive-IsReply (some v) (some w) t =
      elim (Bool-cases ((readl t app_status).0 == pcom_cmd_fail)) [
        | inl e ↦ rw e (refl, refl, refl, refl)
        | inr e ↦ rw e (refl, refl, refl, refl)
      ]

  sent-requested :
      (cmd : ℕ) (data1 data2 : Option ℕ) (s : State)
      → send bus pause n cmd data1 data2 s ≡ requested cmd data1 data2 s
  sent-requested cmd none none s = refl
  sent-requested cmd none (some w) s = refl
  sent-requested cmd (some v) none s = refl
  sent-requested cmd (some v) (some w) s = refl

  -- With a modem that is ready and answers, each within the reads of a wait, a call returns. It waits
  -- until the modem is ready, writes the command with the two words, 0 for a NULL pointer, tells the
  -- modem, and waits until the command is marked as done. In the state `t` that it finds then, it
  -- reads the status, and gives 0 with each data word that was given replaced by the word read from
  -- its register, unless the status is PCOM_CMD_FAIL, when the code is -1 and the words are kept.
  -- Every other code counts as success, the failures above PCOM_CMD_FAIL included. At the end the idle
  -- command is written.
  pub msm_proc_comm_returns :
      (cmd : ℕ) (data1 data2 : Option ℕ) (s : State)
      → ((t : State) → IsAwaited mdm_status pcom_ready t)
      → ((t : State) → IsAwaited app_command pcom_cmd_done (notify_modem bus pause n t))
      → (t : State) × (r : Reply State) × IsAnswered cmd data1 data2 s t
        × (msm_proc_comm bus pause n cmd data1 data2 s ≡ some r)
        × IsReply data1 data2 t r
  unfolding msm_proc_comm
  msm_proc_comm_returns cmd data1 data2 s ready answers =
      let (s₁, w₁, e₁) = pcom_wait_for_returns mdm_status pcom_ready s (ready s) in
      let (s₂, w₂, e₂) =
        pcom_wait_for_returns app_command pcom_cmd_done (send bus pause n cmd data1 data2 s₁)
          (answers _) in
      (
        s₂,
        receive bus pause n data1 data2 s₂,
        (
          s₁,
          w₁,
          subst (λ (u : State). IsWaited app_command pcom_cmd_done u s₂)
              (sent-requested cmd data1 data2 s₁) w₂,
        ),
        rw (e₁, msm_proc_comm) (rw e₂),
        receive-IsReply data1 data2 s₂,
      )
