-- ===== src/Pool/Counts.antt =====
-- The reference count of a dispatched event: `Anbo_Pool_Retain`, `Anbo_Pool_Release`,
-- `Anbo_Pool_Dispatch`.
use mathlib.Core.Path.{fun_ext, ap₂}
use anbo_mos.Common.{
  ℕ, zero, suc, ◌+◌, ◌-◌, ◌%◌, ◌^◌, ◌≤◌, ◌<◌, Option, none, some, ◌≡◌, ap, ◌∙◌, arith, ltb, ◌==◌,
  if◌then◌else◌,
}
use anbo_mos.Pool.{Pool, Block, link, event, set_block, free, retain, release, with_event, dispatch}

abbrev and_then : (Pool → Option Pool) → Option Pool → Option Pool
and_then f none = none
and_then f (some s) = f s

-- The subscribers of an event call `Anbo_Pool_Retain` on it `k` times in all.
unfoldable pub retain_times : ℕ → ℕ → Pool → Option Pool
retain_times zero evt s = some s
retain_times (suc k) evt s = and_then (retain_times k evt) (retain s (some evt))

-- `Anbo_Pool_Release`, `k` times.
unfoldable pub release_times : ℕ → ℕ → Pool → Option Pool
release_times zero evt s = some s
release_times (suc k) evt s = and_then (release_times k evt) (release s (some evt))

module _ (s : Pool) (evt sig : ℕ) where
  -- the pool with the event in its block, counted `c`
  abbrev counted : ℕ → Pool
  counted c = set_block s evt (event sig c)

  with_event-counted :
      (c : ℕ) (f : (sig ref_count : ℕ) → Option Pool) → with_event (counted c) evt f ≡ f sig c
  with_event-counted c f = ground arith

  over : (c d : Block) → set_block (set_block s evt c) evt d ≡ set_block s evt d
  over c d = ap (λ b. record s { blocks = b }) (fun_ext (λ a. ground arith))

  free-counted : (c : ℕ) → free (counted c) (some evt) ≡ free s (some evt)
  unfolding free
  free-counted c =
      ap {A = Pool}
        (λ t. record t { free_head = some evt; free_count = (s.free_count + 1) % 2 ^ 32 })
        (over (event sig c) (link s.free_head))

  retain-counted : (c : ℕ) → retain (counted c) (some evt) ≡ some (counted ((c + 1) % 2 ^ 8))
  unfolding retain
  retain-counted c =
      with_event-counted c _ ∙ ap some (over (event sig c) (event sig ((c + 1) % 2 ^ 8)))

  -- the pool when `n` references to the event are left
  abbrev pub left : ℕ → Pool
  left n = if n == 0 then free s (some evt) else counted n

  release-counted : (c : ℕ) → release (counted (suc c)) (some evt) ≡ some (left c)
  unfolding release
  release-counted c =
      let down : (if ltb 0 (suc c) then suc c - 1 else suc c) ≡ c = ground arith in
      let one = over (event sig (suc c)) (event sig c) in
      with_event-counted (suc c) _
      ∙ ap
          (λ n.
            let s' = set_block (counted (suc c)) evt (event sig n) in
            some (if n == 0 then free s' (some evt) else s'))
          down
      ∙ ap₂ (λ t u. some (if c == 0 then t else u))
          (ap (λ t. free t (some evt)) one ∙ free-counted c) one

  retain_times-counted :
      (k c : ℕ) → c < 2 ^ 8 → retain_times k evt (counted c) ≡ some (counted ((c + k) % 2 ^ 8))
  unfolding retain_times
  retain_times-counted zero c h = ap (λ n. some (counted n)) (omega arith)
  retain_times-counted (suc k) c h =
      ap (and_then (retain_times k evt)) (retain-counted c)
      ∙ retain_times-counted k ((c + 1) % 2 ^ 8) (omega arith)
      ∙ ap (λ n. some (counted n)) (omega arith)

  more : (k : ℕ) → some (left (suc k)) ≡ some (counted (suc k))
  more k = ground arith

  release_times-counted :
      (j k : ℕ) → j ≤ suc k → release_times j evt (counted (suc k)) ≡ some (left (suc k - j))
  unfolding release_times
  release_times-counted zero k h = ap {A = Pool} some (ground arith)
  release_times-counted (suc zero) zero h =
      ap (and_then (release_times zero evt)) (release-counted zero)
  release_times-counted (suc (suc j)) zero h = absurd (omega arith)
  release_times-counted (suc j) (suc k) h =
      ap (and_then (release_times j evt)) (release-counted (suc k) ∙ more k)
      ∙ release_times-counted j k (omega arith)
      ∙ ap (λ n. some (left n)) (omega arith)

  release_all : (k j : ℕ) → j ≤ k → 0 < k → release_times j evt (counted k) ≡ some (left (k - j))
  release_all zero j h p = absurd (omega arith)
  release_all (suc k) j h p = release_times-counted j k h

  -- `Anbo_Pool_Dispatch` of an event that its subscribers retain `k` times
  abbrev pub dispatched : ℕ → Option Pool
  dispatched k = dispatch (λ sig e. retain_times k e) s (some evt)

  dispatch-count :
      (k rc : ℕ)
      → s.blocks evt ≡ event sig rc
      → dispatched k ≡ release (counted ((1 + k) % 2 ^ 8)) (some evt)
  unfolding dispatch
  dispatch-count k rc e =
      ap
        (λ b. elim b [
          | link n ↦ none
          | event g c ↦
              and_then (λ t. release t (some evt))
                (retain_times k evt (set_block s evt (event g 1)))
        ])
        e
      ∙ ap (and_then (λ t. release t (some evt))) (retain_times-counted k 1 (omega arith))

  -- A dispatched event that its subscribers retain `k` times, fewer than 255, is freed at once if
  -- `k` is 0, and otherwise stays in its block with the count `k`; then `k` calls of
  -- `Anbo_Pool_Release`, no fewer, free it.
  pub dispatch-lifetime :
      (k rc : ℕ)
      → s.blocks evt ≡ event sig rc
      → k < 255
      → (dispatched k ≡ some (left k))
        × ((j : ℕ) → j ≤ k → 0 < k → release_times j evt (counted k) ≡ some (left (k - j)))
  dispatch-lifetime k rc e h = (
    dispatch-count k rc e
        ∙ ap (λ n. release (counted n) (some evt)) (omega arith)
        ∙ release-counted k,
    release_all k,
  )

  -- After 255 calls of `Anbo_Pool_Retain` the 8-bit count is 0, and the dispatch frees the event
  -- although 255 releases are still to come.
  pub dispatch-wrapped :
      (rc : ℕ) → s.blocks evt ≡ event sig rc → dispatched 255 ≡ some (free s (some evt))
  unfolding release
  dispatch-wrapped rc e =
      dispatch-count 255 rc e
      ∙ with_event-counted 0 _
      ∙ ap some (ap (λ t. free t (some evt)) (over (event sig 0) (event sig 0)) ∙ free-counted 0)
