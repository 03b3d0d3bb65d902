-- ===== src/LogFlash/Examples.antt =====
-- The persistent log at concrete inputs: tests, and the theorems applied.
use anbo_mos.Common.{
  ℕ, zero, suc, ◌+◌, ◌/◌, ◌≤◌, ◌<◌, true, false, List, [], ◌∷◌, ◌≡◌, refl, arith, ltb,
  if◌then◌else◌, take, replicate,
}
use anbo_mos.LogFlash.{
  Area, Flash, Cursors, slots_per_page, page_addr, slot_is_empty, slot_read_valid, read,
}
use anbo_mos.LogFlash.Format.{slot_size, crc32_calc, slot_ok, build_slot}
use anbo_mos.LogFlash.Reading.{IsWrapped, ctx_of_reads, text_at, IsInside, read-never_ends}

-- The checksum of "123456789".
check_value : crc32_calc (49 ∷ 50 ∷ 51 ∷ 52 ∷ 53 ∷ 54 ∷ 55 ∷ 56 ∷ 57 ∷ []) ≡ 3421780262
unfolding crc32_calc
check_value = refl

-- Three pages of one slot, all with the same entry; the head is page 1, and page 0 was just reused.
abbrev entry : List ℕ
entry = build_slot 5 (65 ∷ [])

abbrev pages : Area
pages = record { first_addr = 4096; page_size = 128; num_pages = 3 }

abbrev same_slots : Flash (List ℕ)
same_slots = record {
  read_bytes = λ m a len. take len m;
  page_program = λ m a slot. (true, slot);
  sector_erase = λ m a. (true, replicate slot_size 255);
}

abbrev reused : Cursors
reused = record {
  cur_page = 0;
  cur_slot = 1;
  seq_counter = 6;
  head_page = 1;
  head_slot = 0;
  inited = true;
}

entry_used : (pg si : ℕ) → slot_is_empty pages same_slots entry pg si ≡ false
unfolding slot_is_empty build_slot
entry_used pg si = refl

entry_valid : (pg si : ℕ) → slot_read_valid pages same_slots entry pg si ≡ true
unfolding slot_ok build_slot
entry_valid pg si = refl

reused-IsWrapped : IsWrapped pages same_slots entry reused 120
reused-IsWrapped = record {
  some_room = omega arith;
  pages_fit = omega arith;
  some_slot = omega arith;
  slots_fit = omega arith;
  head_in = omega arith;
  head_start = refl;
  writer = omega arith;
  writer_on = omega arith;
  used = λ pg si h p s. entry_used pg si;
  valid = λ pg si h p s. entry_valid pg si;
  first_used = entry_used 0 0;
}

read-never_ends_example :
    (i : IsInside pages same_slots entry reused 120
      (ctx_of_reads pages same_slots entry reused 120 1000))
    × ((read pages same_slots entry reused 120
          (ctx_of_reads pages same_slots entry reused 120 1000)).0
        ≡ text_at pages same_slots entry reused 120 i.pg i.si)
read-never_ends_example = read-never_ends pages same_slots entry reused 120 reused-IsWrapped 1000

-- One page of four slots, the first `m` of them written.
abbrev page : Area
page = record { first_addr = 0; page_size = 512; num_pages = 1 }

abbrev counted : Flash ℕ
counted = record {
  read_bytes = λ m a len. take len (if ltb (a / 128) m then entry else replicate slot_size 255);
  page_program = λ m a slot. (true, m + 1);
  sector_erase = λ m a. (true, 0);
}

two_written : (i : ℕ) → i < 2 → slot_is_empty page counted 2 0 i ≡ false
unfolding slot_is_empty build_slot page_addr
two_written zero h = refl
two_written (suc zero) h = refl
two_written (suc (suc i)) h = absurd (omega arith)

two_free :
    (i : ℕ) → 2 ≤ i → i < slots_per_page page counted → slot_is_empty page counted 2 0 i ≡ true
unfolding slot_is_empty page_addr
two_free zero h l = absurd (omega arith)
two_free (suc zero) h l = absurd (omega arith)
two_free (suc (suc zero)) h l = refl
two_free (suc (suc (suc zero))) h l = refl
two_free (suc (suc (suc (suc i)))) h l = absurd (omega arith)
