-- ===== src/Nvm/Interface.antt =====
-- What the record store relies on of a backend, and how the records lie.
use anbo_mos.Common.{ℕ, ◌≤◌, ◌<◌, true, false, ◌&&◌, some, ◌≡◌, ◌≢◌, ◌==◌}
use anbo_mos.Nvm.{Geometry, Backend, slot_addr, max_slots}
use anbo_mos.Nvm.Scan.{empty_at}

-- `blank m a` tells that the slot at the address `a` is erased as a whole.
module _ {ℓ} {Mem : Type ℓ} {Rec : Type 0} (g : Geometry) (d : Backend Mem Rec)
    (blank : Mem → ℕ → Type 0) where
  abbrev pub In : (pg i : ℕ) → Type 0
  In pg i = (pg < g.num_pages) × (i < max_slots g d)

  -- Two memories show the same at a slot.
  abbrev pub Same : Mem → Mem → (pg i : ℕ) → Type 0
  Same m m' pg i =
      (empty_at g d m' pg i ≡ empty_at g d m pg i)
      × (blank m (slot_addr g d pg i) → blank m' (slot_addr g d pg i))
      × (d.read_slot m' (slot_addr g d pg i) ≡ d.read_slot m (slot_addr g d pg i))

  -- What the driver relies on: a blank slot looks empty, a record programmed into one stands there
  -- and looks used, if the record is usable, and programming and erasing leave the other
  -- slots and pages alone. Nothing is said of an operation that reports a failure.
  pub record IsFlash (usable : Rec → Type 0) : Type ℓ where
    pub holds_slots : 0 < max_slots g d
    pub blank_empty : (m : Mem) (a : ℕ) → blank m a → d.slot_is_empty m a ≡ true
    pub programmed :
        (m m' : Mem) (pg i : ℕ) (r : Rec)
        → In pg i
        → blank m (slot_addr g d pg i)
        → usable r
        → d.program m (slot_addr g d pg i) r ≡ (true, m')
        → (empty_at g d m' pg i ≡ false) × (d.read_slot m' (slot_addr g d pg i) ≡ some r)
    pub program_apart :
        (m m' : Mem) (pg i q j : ℕ) (r : Rec)
        → In pg i
        → In q j
        → (q == pg) && (j == i) ≡ false
        → d.program m (slot_addr g d pg i) r ≡ (true, m')
        → Same m m' q j
    pub erase_apart :
        (m m' : Mem) (pg q j : ℕ)
        → pg < g.num_pages
        → In q j
        → q ≢ pg
        → d.erase_page m pg ≡ (true, m')
        → Same m m' q j

  -- The slots of the page `active` are used up to `used`, and the pages behind it are empty.
  pub record IsFilled (m : Mem) (active used : ℕ) : Type 0 where
    pub active_in : active < g.num_pages
    pub used_in : used ≤ max_slots g d
    pub written : (i : ℕ) → i < used → empty_at g d m active i ≡ false
    pub free : (i : ℕ) → used ≤ i → i < max_slots g d → blank m (slot_addr g d active i)
    pub later :
        (q i : ℕ) → active < q → q < g.num_pages → i < max_slots g d → blank m (slot_addr g d q i)

  pub free_empty :
      {usable : Rec → Type 0}
      → IsFlash usable
      → {m : Mem} {active used : ℕ} → IsFilled m active used
      → (i : ℕ) → used ≤ i
      → i < max_slots g d
      → empty_at g d m active i ≡ true
  free_empty f {m} {active} v i h l = f.blank_empty m (slot_addr g d active i) (v.free i h l)

  pub later_empty :
      {usable : Rec → Type 0}
      → IsFlash usable
      → {m : Mem} {active used : ℕ} → IsFilled m active used
      → (q : ℕ) → active < q
      → q < g.num_pages
      → empty_at g d m q 0 ≡ true
  later_empty f {m} v q h l = f.blank_empty m (slot_addr g d q 0) (v.later q 0 h l f.holds_slots)
