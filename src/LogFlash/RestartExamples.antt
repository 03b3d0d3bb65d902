-- ===== src/LogFlash/RestartExamples.antt =====
-- Restarts of the persistent log at concrete inputs: the theorems applied.
use anbo_mos.Common.{
  ℕ, zero, suc, ◌-◌, ◌/◌, ◌^◌, ◌≤◌, ◌<◌, true, false, some, List, [], ◌∷◌, ◌≡◌, ◌≢◌, refl, ap, ◌∙◌,
  sym, arith, ltb, ◌==◌, ==_iff, ◌&&◌, if◌then◌else◌, get_or-take, take, take_all, replicate,
}
use anbo_mos.LogFlash.{
  Area, Flash, Cursors, slots_per_page, page_addr, slot_addr, slot_at, slot_seq, slot_is_empty,
  slot_read_valid, write,
}
use anbo_mos.LogFlash.Format.{slot_size, word_at, seq_after, seq_next, slot_ok, build_slot}
use anbo_mos.LogFlash.Recover.{init}
use anbo_mos.LogFlash.Scan.{page_ok, page_seq}
use anbo_mos.LogFlash.Recovery.{IsLog, init-recovers}
use anbo_mos.LogFlash.Writing.{IsFlash, write-recovers}

abbrev unset : Cursors
unset = record {
  cur_page = 7;
  cur_slot = 7;
  seq_counter = 7;
  head_page = 7;
  head_slot = 7;
  inited = false;
}

-- Two pages of four slots: page 0 is full of the numbers 0 to 3; page 1 holds the number 4, a slot
-- that was spoilt, and two empty ones.
abbrev two_pages : Area
two_pages = record { first_addr = 512; page_size = 512; num_pages = 2 }

abbrev content : ℕ → List ℕ
content k =
    if ltb 3 k
    then build_slot (k - 4) (65 ∷ [])
    else if k == 0
    then build_slot 4 (66 ∷ [])
    else if k == 1
    then replicate slot_size 0
    else replicate slot_size 255

abbrev live : Flash (ℕ → List ℕ)
live = record {
  read_bytes = λ m a len. take len (m (a / 128));
  page_program = λ m a slot. (true, λ k. if k == a / 128 then slot else m k);
  sector_erase = λ m a. (false, m);
}

seq_small : (pg : ℕ) → pg < 2 → page_seq two_pages live content pg < 2 ^ 32
unfolding build_slot page_addr word_at
seq_small zero h = omega arith
seq_small (suc zero) h = omega arith
seq_small (suc (suc pg)) h = absurd (omega arith)

tail_newest :
    (pg : ℕ)
    → pg < 2
    → page_ok two_pages live content pg ≡ true
    → pg ≢ 1
    → seq_after (page_seq two_pages live content 1) (page_seq two_pages live content pg) ≡ true
unfolding build_slot page_addr seq_after word_at
tail_newest zero h o ne = refl
tail_newest (suc zero) h o ne = absurd (omega arith)
tail_newest (suc (suc pg)) h o ne = absurd (omega arith)

head_oldest :
    (pg : ℕ)
    → pg < 2
    → page_ok two_pages live content pg ≡ true
    → pg ≢ 0
    → seq_after (page_seq two_pages live content pg) (page_seq two_pages live content 0) ≡ true
unfolding build_slot page_addr seq_after word_at
head_oldest zero h o ne = absurd (omega arith)
head_oldest (suc zero) h o ne = refl
head_oldest (suc (suc pg)) h o ne = absurd (omega arith)

tail_written : (i : ℕ) → i < 2 → slot_is_empty two_pages live content 1 i ≡ false
unfolding slot_is_empty build_slot page_addr
tail_written zero h = refl
tail_written (suc zero) h = refl
tail_written (suc (suc i)) h = absurd (omega arith)

tail_free :
    (i : ℕ)
    → 2 ≤ i
    → i < slots_per_page two_pages live
    → slot_is_empty two_pages live content 1 i ≡ true
unfolding slot_is_empty page_addr
tail_free zero h l = absurd (omega arith)
tail_free (suc zero) h l = absurd (omega arith)
tail_free (suc (suc zero)) h l = refl
tail_free (suc (suc (suc zero))) h l = refl
tail_free (suc (suc (suc (suc i)))) h l = absurd (omega arith)

tail_spoilt : (i : ℕ) → 0 < i → i < 2 → slot_read_valid two_pages live content 1 i ≡ false
unfolding slot_ok page_addr
tail_spoilt zero h l = absurd (omega arith)
tail_spoilt (suc zero) h l = refl
tail_spoilt (suc (suc i)) h l = absurd (omega arith)

two_pages-IsLog : IsLog two_pages live content 0 1 2 0
unfolding slot_ok build_slot page_addr
two_pages-IsLog = record {
  head_in = omega arith;
  tail_in = omega arith;
  head_ok = refl;
  tail_ok = refl;
  words = seq_small;
  newest = tail_newest;
  oldest = head_oldest;
  used_in = omega arith;
  last_in = omega arith;
  written = tail_written;
  free = tail_free;
  last_ok = refl;
  spoilt = tail_spoilt;
}

init-recovers_example :
    init two_pages live content unset
    ≡ some (record {
      cur_page = 1;
      cur_slot = 2;
      seq_counter = seq_next (word_at (slot_at two_pages live content 1 0) 0);
      head_page = 0;
      head_slot = 0;
      inited = true;
    })
init-recovers_example = init-recovers two_pages live content two_pages-IsLog unset

word_at-take : (n : ℕ) (xs : List ℕ) → 4 ≤ n → word_at (take n xs) 0 ≡ word_at xs 0
unfolding word_at
word_at-take n xs h =
    rw
      (
        get_or-take n 0 xs 0 (omega arith),
        get_or-take n 1 xs 0 (omega arith),
        get_or-take n 2 xs 0 (omega arith),
        get_or-take n 3 xs 0 (omega arith),
      )
      refl

slots_differ :
    (pg s q j : ℕ)
    → (pg < 2) × (s < 4)
    → (q < 2) × (j < 4)
    → (q == pg) && (j == s) ≡ false
    → (slot_addr two_pages live q j / 128 == slot_addr two_pages live pg s / 128) ≡ false
unfolding page_addr
slots_differ pg s q j inside other ne = ground arith

live-IsFlash : IsFlash two_pages live
unfolding slot_seq page_addr
live-IsFlash = record {
  reads_prefix = λ m pg s.
      let slot = m (slot_addr two_pages live pg s / 128) in
      word_at-take 4 slot (omega arith) ∙ sym (word_at-take slot_size slot (omega arith));
  programmed = λ m m' pg s slot inside size blank e.
      let k = slot_addr two_pages live pg s / 128 in
      ap (λ r. slot_at two_pages live r.1 pg s) (sym e)
      ∙ rw ((==_iff k k).1 refl) (take_all slot_size slot (omega (arith, size)));
  apart = λ m m' pg s q j slot inside other ne e.
      ap (λ r. slot_at two_pages live r.1 q j) (sym e)
      ∙ rw (slots_differ pg s q j inside other ne) refl;
}

abbrev before : Cursors
before = record {
  cur_page = 1;
  cur_slot = 2;
  seq_counter = 5;
  head_page = 0;
  head_slot = 0;
  inited = true;
}

abbrev written : ℕ × ((ℕ → List ℕ) × Cursors)
written = write two_pages live content before (67 ∷ 13 ∷ 10 ∷ [])

one_taken : written.0 ≡ 1
unfolding write
one_taken = refl

next_blank : slot_at two_pages live content 1 2 ≡ replicate slot_size 255
unfolding page_addr
next_blank = refl

write-recovers_example :
    IsLog two_pages live written.1.0 0 1 3 2
    × (init two_pages live written.1.0 unset ≡ some written.1.1)
write-recovers_example =
    write-recovers two_pages live live-IsFlash content written.1.0 before written.1.1 unset
      (67 ∷ 13 ∷ 10 ∷ []) written.0 0 two_pages-IsLog refl (omega arith) (omega arith) next_blank
      refl (omega (arith, one_taken))
