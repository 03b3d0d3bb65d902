-- ===== src/Nvm/External/Chunks.antt =====
-- The loop that programs a record page by page.
use anbo_mos.Common.{
  ℕ, zero, suc, ◌+◌, ◌-◌, ◌%◌, ◌^◌, ◌≤◌, ◌<◌, Bool, true, false, some, List, ◌≡◌, refl, ap, ◌∙◌,
  ◌⊎◌, inl, inr, Bool-cases, arith, ◌==◌, length, get_or, take, drop, length-take, length-drop,
  get_or-take, get_or-drop, add32,
}
use anbo_mos.Common.Bits.{bit_and_mask}
use native.Mathlib.Decide.{dec_lt}
use anbo_mos.Nvm.{Geometry}
use anbo_mos.Nvm.External.{Ospi, chunk_len, program_chunks}

chunk_len-fits :
    (addr n : ℕ)
    → (chunk_len addr n ≤ n)
      × (addr % 256 + chunk_len addr n ≤ 256)
      × (0 < n → 0 < chunk_len addr n)
unfolding chunk_len
chunk_len-fits addr n = let low = bit_and_mask 8 addr in ground arith

module _ {ℓ} {Mem : Type ℓ} (g : Geometry) (bus : Ospi Mem) (byte : Mem → ℕ → ℕ) (size : ℕ) where
  -- What is relied on of the bus driver, with a flash of `size` bytes: bytes programmed within one
  -- page of the flash, where it is erased, read back, and no other is changed.
  pub record IsOspi : Type ℓ where
    pub programmed :
        (m m' : Mem) (a : ℕ) (bytes : List ℕ)
        → a % 256 + length bytes ≤ 256
        → a + length bytes ≤ size
        → 0 < length bytes
        → ((k : ℕ) → k < length bytes → byte m (a + k) ≡ 255)
        → bus.page_program m a bytes ≡ (true, m')
        → (k : ℕ) → k < length bytes
        → byte m' (a + k) ≡ get_or bytes k 0
    pub apart :
        (m m' : Mem) (a b : ℕ) (bytes : List ℕ)
        → a % 256 + length bytes ≤ 256
        → a + length bytes ≤ size
        → 0 < length bytes
        → ((k : ℕ) → k < length bytes → byte m (a + k) ≡ 255)
        → bus.page_program m a bytes ≡ (true, m')
        → (b < a) ⊎ (a + length bytes ≤ b)
        → byte m' b ≡ byte m b

  -- The bytes stand in the flash from `a` on, and the others are as before.
  abbrev pub Holds : Mem → Mem → ℕ → List ℕ → Type 0
  Holds m m' a src =
      ((k : ℕ) → k < length src → byte m' (a + k) ≡ get_or src k 0)
      × ((b : ℕ) → (b < a) ⊎ (a + length src ≤ b) → byte m' b ≡ byte m b)

  module _ (f : IsOspi) where
    Holds-split :
        (m m1 m' : Mem) (a c : ℕ) (src : List ℕ)
        → c ≤ length src
        → Holds m m1 a (take c src)
        → Holds m1 m' (a + c) (drop c src)
        → Holds m m' a src
    Holds-split m m1 m' a c src h (now, before) (later, rest) =
        let taken = length-take c src in
        let left = length-drop c src in
        (
          λ k l. elim (dec_lt k c) [
            | yes first ↦
                rest (a + k) (omega arith) ∙ now k (omega arith) ∙ get_or-take c k src 0 first
            | no behind ↦
                ap (byte m') (omega arith)
                ∙ later (k - c) (omega arith)
                ∙ get_or-drop c (k - c) k src 0 (omega arith)
          ],
          λ b out. rest b (omega arith) ∙ before b (omega arith),
        )

    page_program-Holds :
        (m m' : Mem) (a : ℕ) (bytes : List ℕ)
        → a % 256 + length bytes ≤ 256
        → a + length bytes ≤ size
        → 0 < length bytes
        → ((k : ℕ) → k < length bytes → byte m (a + k) ≡ 255)
        → bus.page_program m a bytes ≡ (true, m')
        → Holds m m' a bytes
    page_program-Holds m m' a bytes h fits some_left clean e = (
      f.programmed m m' a bytes h fits some_left clean e,
      λ b out. f.apart m m' a b bytes h fits some_left clean e out,
    )

    -- The loop of `BSP_Flash_WriteAppend` over the pages of the flash ends within as many rounds as
    -- there are bytes. If it reports success on erased flash, in one of less than 2 ^ 32 bytes, the
    -- bytes stand there in their order, wherever they start, and no other byte has changed.
    pub program_chunks-Holds :
        size < 2 ^ 32
        → (n a : ℕ) (src : List ℕ) (m : Mem) → length src ≤ n
        → a + length src ≤ size
        → ((k : ℕ) → k < length src → byte m (a + k) ≡ 255)
        → (done : Bool) × (m' : Mem) × (program_chunks g bus n a src m ≡ some (done, m'))
          × (done ≡ true → Holds m m' a src)
    unfolding program_chunks
    program_chunks-Holds word zero a src m h room clean =
        let over : (length src == 0) ≡ true = ground arith in
        rw over (true, m, refl, λ e. (λ k l. absurd (ground arith), λ b out. refl))
    program_chunks-Holds word (suc n) a src m h room clean = elim (Bool-cases (length src == 0)) [
      | inl over ↦ rw over (true, m, refl, λ e. (λ k l. absurd (ground arith), λ b out. refl))
      | inr more ↦
          let c = chunk_len a (length src) in
          let (small, within, grows) = chunk_len-fits a (length src) in
          let taken = length-take c src in
          let left = length-drop c src in
          let step = bus.page_program m a (take c src) in
          let next : add32 a c ≡ a + c = omega arith in
          let some_more : 0 < c = grows (ground arith) in
          elim (Bool-cases step.0) [
            | inr failed ↦ rw (more, failed) (false, step.1, refl, λ e. absurd (cc))
            | inl went ↦
                let now =
                  page_program-Holds m step.1 a (take c src) (omega arith) (omega arith)
                    (omega arith) (λ k l. clean k (omega arith)) (ap (λ b. (b, step.1)) went) in
                let (done, m', e, later) =
                  program_chunks-Holds word n (a + c) (drop c src) step.1 (omega arith)
                    (omega arith)
                    (λ k l.
                      now.1 (a + c + k) (omega arith)
                      ∙ ap (byte m) (omega arith)
                      ∙ clean (c + k) (omega arith)) in
                rw (more, went, next)
                  (done, m', e, λ ok. Holds-split m step.1 m' a c src small now (later ok))
          ]
    ]
