-- ===== src/Nvm/Examples.antt =====
-- The record store on the internal flash at concrete inputs: two pages of two slots.
use anbo_mos.Common.{
  false, Bool, length, get_or, ℕ, ◌+◌, ◌-◌, ◌*◌, true, ◌&&◌, some, List, [], ◌∷◌, ◌≡◌, refl, ap,
  sym, ◌∙◌, inl, inr, arith, ◌==◌, ltb, leb, if◌then◌else◌,
}
use anbo_mos.Nvm.{Geometry, page_addr, read_latest, rotate, write_append}
use anbo_mos.Nvm.Interface.{IsFlash, IsFilled}
use anbo_mos.Nvm.Store.{write_append-read_latest}
use anbo_mos.Nvm.Exhausted.{write_append-stale}
use anbo_mos.Nvm.Internal.{Words, erased_word, Hal, page_num, program_loop, erase_page, backend}
use anbo_mos.Nvm.External.{Ospi, program_chunks}
use anbo_mos.Nvm.External.Chunks.{IsOspi, Holds, program_chunks-Holds}
use anbo_mos.Nvm.Internal.Layout.{IsLaid}
use anbo_mos.Nvm.Internal.Flash.{IsHal, Blank, Usable, backend-IsFlash}

abbrev area : Geometry
area = record { first_addr = 1024; page_size = 32; num_pages = 2; rec_size = 16 }

-- A flash that never fails, with the page numbers counted down from 9.
abbrev flash : Hal
flash = record {
  program = λ a w m. (true, λ b. if b == a then w else m b);
  erase = λ p m. (
    true,
    λ b.
        if leb (1024 - (9 - p) * 32) b && ltb b (1024 - (9 - p) * 32 + 32)
        then erased_word
        else m b,
  );
}

flash-IsHal : IsHal area flash 9
unfolding page_num page_addr
flash-IsHal = record {
  programmed = λ m m' a w clean e. ap (λ s. s.1 a) (sym e) ∙ ground arith;
  program_apart = λ m m' a w b e ne. ap (λ s. s.1 b) (sym e) ∙ ground arith;
  erase_apart = λ m m' pg b h e out. ap (λ s. s.1 b) (sym e) ∙ ground arith;
}

area-IsLaid : IsLaid area 2
area-IsLaid = record {
  words = refl;
  some_word = omega arith;
  holds_record = omega arith;
  some_page = omega arith;
  above_zero = omega arith;
  below_end = omega arith;
}

served : IsFlash area (backend area flash 9) (Blank area flash 9) (Usable area flash 9)
served = backend-IsFlash area flash 9 flash-IsHal area-IsLaid

abbrev erased : Words
erased = λ a. erased_word

-- The log is empty, and every page is blank.
erased-IsFilled : IsFilled area (backend area flash 9) (Blank area flash 9) erased 0 0
erased-IsFilled = record {
  active_in = omega arith;
  used_in = omega arith;
  written = λ i p. absurd (omega arith);
  free = λ i p q k l. refl;
  later = λ q i p a b k l. refl;
}

abbrev after1 : Words
after1 = (write_append area (backend area flash 9) erased (5 ∷ 6 ∷ [])).1

abbrev after2 : Words
after2 = (write_append area (backend area flash 9) after1 (7 ∷ 8 ∷ [])).1

abbrev after3 : Words
after3 = (write_append area (backend area flash 9) after2 (9 ∷ 10 ∷ [])).1

abbrev after4 : Words
after4 = (write_append area (backend area flash 9) after3 (11 ∷ 12 ∷ [])).1

abbrev after5 : Words
after5 = (write_append area (backend area flash 9) after4 (13 ∷ 14 ∷ [])).1

-- No write on this flash fails.
write_append-succeeds :
    (m : Words) (r : List ℕ)
    → write_append area (backend area flash 9) m r
      ≡ (true, (write_append area (backend area flash 9) m r).1)
unfolding write_append rotate backend program_loop erase_page
write_append-succeeds m r = ground arith

write_append-read_latest_example :
    IsFilled area (backend area flash 9) (Blank area flash 9) after1 0 1
    × (read_latest area (backend area flash 9) after1 ≡ some (5 ∷ 6 ∷ []))
write_append-read_latest_example =
    write_append-read_latest area (backend area flash 9) (Blank area flash 9) served erased after1 0
      0 (5 ∷ 6 ∷ []) erased-IsFilled (λ h. refl) (inl (omega arith)) (refl, omega arith)
      (write_append-succeeds erased (5 ∷ 6 ∷ []))

-- Four records fill the area.
after4-IsFilled : IsFilled area (backend area flash 9) (Blank area flash 9) after4 1 2
after4-IsFilled =
    let d = backend area flash 9 in
    let b = Blank area flash 9 in
    let f1 = write_append-read_latest_example.0 in
    let f2 =
      (write_append-read_latest area d b served after1 after2 0 1 (7 ∷ 8 ∷ []) f1
        (λ h. absurd (omega arith)) (inl (omega arith)) (refl, omega arith)
        (write_append-succeeds after1 (7 ∷ 8 ∷ []))).0 in
    let f3 =
      (write_append-read_latest area d b served after2 after3 0 2 (9 ∷ 10 ∷ []) f2
        (λ h. absurd (omega arith)) (inr (omega arith)) (refl, omega arith)
        (write_append-succeeds after2 (9 ∷ 10 ∷ []))).0 in
    (write_append-read_latest area d b served after3 after4 1 1 (11 ∷ 12 ∷ []) f3
      (λ h. absurd (omega arith)) (inl (omega arith)) (refl, omega arith)
      (write_append-succeeds after3 (11 ∷ 12 ∷ []))).0

write_append-stale_example :
    IsFilled area (backend area flash 9) (Blank area flash 9) after5 1 2
    × (read_latest area (backend area flash 9) after5
        ≡ read_latest area (backend area flash 9) after4)
write_append-stale_example =
    write_append-stale area (backend area flash 9) served 1 refl (omega arith) after4 after5
      (13 ∷ 14 ∷ []) after4-IsFilled (write_append-succeeds after4 (13 ∷ 14 ∷ []))

backend-IsFlash_example :
    IsFlash area (backend area flash 9) (Blank area flash 9) (Usable area flash 9)
backend-IsFlash_example = backend-IsFlash area flash 9 flash-IsHal area-IsLaid

-- An external flash that never fails.
abbrev nor : Ospi Words
nor = record {
  read = λ m a len. some [];
  page_program = λ m a bytes.
      (true, λ b. if leb a b && ltb b (a + length bytes) then get_or bytes (b - a) 0 else m b);
  sector_erase = λ m a. (true, m);
}

nor-IsOspi : IsOspi area nor (λ m b. m b) 65536
nor-IsOspi = record {
  programmed = λ m m' a bytes within fits more clean e k h.
      ap (λ s. s.1 (a + k)) (sym e)
      ∙ (let inside : (leb a (a + k) && ltb (a + k) (a + length bytes)) ≡ true = ground arith in
          rw inside (ap (λ j. get_or bytes j 0) (omega arith)));
  apart = λ m m' a b bytes within fits more clean e out.
      ap (λ s. s.1 b) (sym e)
      ∙ (let outside : (leb a b && ltb b (a + length bytes)) ≡ false = ground arith in
          rw outside refl);
}

-- Four bytes from the address 254 on, across the end of a page of the flash.
program_chunks-Holds_example :
    (done : Bool) × (m' : Words) × (program_chunks area nor 4 254 (5 ∷ 6 ∷ 7 ∷ 8 ∷ []) (λ a. 255)
      ≡ some (done, m'))
    × (done ≡ true → Holds area nor (λ m b. m b) 65536 (λ a. 255) m' 254 (5 ∷ 6 ∷ 7 ∷ 8 ∷ []))
program_chunks-Holds_example =
    program_chunks-Holds area nor (λ m b. m b) 65536 nor-IsOspi (omega arith) 4 254
      (5 ∷ 6 ∷ 7 ∷ 8 ∷ []) (λ a. 255) (omega arith) (omega arith) (λ k h. refl)
