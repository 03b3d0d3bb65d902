-- ===== src/Port/Critical.antt =====
-- port/stm32l4s5/b_l4s5i_port.c: critical sections, which mask the interrupts and may be nested.
use native.Mathlib.Decide.{dec_lt}
use anbo_mos.Common.{
  ℕ, suc, ◌+◌, ◌-◌, ◌%◌, ◌^◌, ◌<◌, Bool, true, false, ◌≡◌, ◌≢◌, refl, ◌∙◌, sym, ◌⊎◌, inl, inr,
  arith, ◌==◌, if◌then◌else◌,
}

-- The mask of the processor, and the static variables.
pub record Cpu : Type 0 where
  pub primask : Bool
  pub crit_nesting : ℕ
  pub primask_save : Bool

unfoldable pub critical_enter : Cpu → Cpu
critical_enter c = record {
  primask = true;
  primask_save = if c.crit_nesting == 0 then c.primask else c.primask_save;
  crit_nesting = (c.crit_nesting + 1) % 2 ^ 32;
}

unfoldable pub critical_exit : Cpu → Cpu
critical_exit c =
    if c.crit_nesting == 0
    then c
    else if c.crit_nesting - 1 == 0
    then record c { crit_nesting = c.crit_nesting - 1; primask = c.primask_save }
    else record c { crit_nesting = c.crit_nesting - 1 }

-- From `c` to `d` by calls in pairs, at most `n` deep: an interrupt comes only while they are not
-- masked, and makes calls in pairs as well.
pub data Balanced : ℕ → Cpu → Cpu → Type 0 where
  stay : {n : ℕ} {c : Cpu} → Balanced n c c
  section :
      {n : ℕ} {c d e : Cpu}
      → Balanced n (critical_enter c) d
      → Balanced (suc n) (critical_exit d) e
      → Balanced (suc n) c e
  interrupt :
      {n : ℕ} {c d e : Cpu}
      → c.primask ≡ false
      → Balanced n c d
      → Balanced (suc n) d e
      → Balanced (suc n) c e

-- Inside a section the interrupts are masked.
abbrev pub IsCpu : Cpu → Type 0
IsCpu c = (c.crit_nesting ≡ 0) ⊎ (c.primask ≡ true)

-- The later state has the mask and the depth of the earlier one.
pub record IsBack (c d : Cpu) : Type 0 where
  pub mask : d.primask ≡ c.primask
  pub depth : d.crit_nesting ≡ c.crit_nesting
  pub saved : c.crit_nesting ≢ 0 → d.primask_save ≡ c.primask_save

-- One section, whose inside keeps the mask and the depth.
section-IsBack :
    (n : ℕ) {c d : Cpu}
    → IsCpu c
    → c.crit_nesting + suc n < 2 ^ 32
    → IsBack (critical_enter c) d
    → IsBack c (critical_exit d)
unfolding critical_enter critical_exit
section-IsBack n {c} {d} i room b = elim (dec_lt 0 c.crit_nesting) [
  | yes deep ↦ ground (arith, b.mask, b.depth, b.saved)
  | no flat ↦ ground (arith, b.mask, b.depth, b.saved)
]

-- The mask and the depth at two times, one after the other.
IsBack-trans : {c d e : Cpu} → IsBack c d → IsBack d e → IsBack c e
IsBack-trans b b' = record {
  mask = b'.mask ∙ b.mask;
  depth = b'.depth ∙ b.depth;
  saved = λ h. b'.saved (λ z. h (sym b.depth ∙ z)) ∙ b.saved h;
}

IsCpu-IsBack : {c d : Cpu} → IsCpu c → IsBack c d → IsCpu d
IsCpu-IsBack (inl flat) b = inl (b.depth ∙ flat)
IsCpu-IsBack (inr masked) b = inr (b.mask ∙ masked)

enter-IsCpu : (c : Cpu) → IsCpu (critical_enter c)
unfolding critical_enter
enter-IsCpu c = inr refl

enter-depth :
    (c : Cpu) → c.crit_nesting + 1 < 2 ^ 32 → (critical_enter c).crit_nesting ≡ c.crit_nesting + 1
unfolding critical_enter
enter-depth c h = omega arith

-- Calls of `Anbo_Arch_Critical_Enter` and `_Exit` in pairs, interrupts between them included, leave
-- the mask of the interrupts and the depth as they found them, while the depth stays below 2 ^ 32; they are
-- masked wherever the depth is not 0, if they were to begin with.
pub Balanced-IsBack :
    {n : ℕ} {c d : Cpu}
    → Balanced n c d
    → IsCpu c
    → c.crit_nesting + n < 2 ^ 32
    → IsBack c d × IsCpu d
Balanced-IsBack stay i room = (record { mask = refl; depth = refl; saved = λ h. refl }, i)
Balanced-IsBack (section {n} {c} {d} {e} inside rest) i room =
    let inner =
      Balanced-IsBack inside (enter-IsCpu c) (rw (enter-depth c (omega arith)) (omega arith)) in
    let back = section-IsBack n i room inner.0 in
    let (on, j) = Balanced-IsBack rest (IsCpu-IsBack i back) (rw back.depth room) in
    (IsBack-trans back on, j)
Balanced-IsBack (interrupt {n} {c} {d} {e} free isr rest) i room =
    let (back, j) = Balanced-IsBack isr i (omega arith) in
    let (on, k) = Balanced-IsBack rest j (rw back.depth room) in (IsBack-trans back on, k)
