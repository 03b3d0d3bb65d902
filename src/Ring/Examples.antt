-- ===== src/Ring/Examples.antt =====
-- The ring at concrete inputs: tests, and the theorems applied.
use anbo_mos.Common.{
  ◌-◌, ◌^◌, none, some, List, [], ◌∷◌, ◌++◌, ◌≡◌, refl, arith, ok, failed, min, take,
}
use anbo_mos.Ring.{Ring, def_ring, count, put_byte, get_byte, write}
use anbo_mos.Ring.Valid.{IsValid}
use anbo_mos.Ring.Window.{window, contents}
use anbo_mos.Ring.Session.{Call, put, get, stored, got, run, run_queue, run_refines}
use anbo_mos.Ring.Bulk.{write-append}

-- Three bytes 7, 8, 9 round the end of the storage, and round the end of the 32-bit range.
abbrev wrapped : Ring
wrapped = record { buf = 9 ∷ 0 ∷ 7 ∷ 8 ∷ []; size = 4; mask = 3; head = 1; tail = 2 ^ 32 - 2 }

abbrev cleared : Ring
cleared = record { buf = 0 ∷ 0 ∷ 0 ∷ 0 ∷ []; size = 4; mask = 3; head = 0; tail = 0 }

cleared_by_def : def_ring 2 ≡ cleared
unfolding def_ring
cleared_by_def = refl

wrapped-IsValid : IsValid wrapped
unfolding count
wrapped-IsValid = record {
  order = 2;
  order_small = omega arith;
  size_eq = refl;
  mask_eq = refl;
  storage = refl;
  head_word = omega arith;
  tail_word = omega arith;
  within = omega arith;
}

cleared-IsValid : IsValid cleared
unfolding count
cleared-IsValid = record {
  order = 2;
  order_small = omega arith;
  size_eq = refl;
  mask_eq = refl;
  storage = refl;
  head_word = omega arith;
  tail_word = omega arith;
  within = omega arith;
}

contents-wrapped : contents wrapped ≡ 7 ∷ 8 ∷ 9 ∷ []
unfolding contents window count
contents-wrapped = refl

abbrev script : List Call
script = put 1 ∷ put 2 ∷ get ∷ get ∷ get ∷ get ∷ get ∷ []

run-wrapped :
    run wrapped script
    ≡ stored ok
      ∷ stored failed
      ∷ got (some 7)
      ∷ got (some 8)
      ∷ got (some 9)
      ∷ got (some 1)
      ∷ got none
      ∷ []
unfolding run put_byte get_byte
run-wrapped = refl

write-clamped : (write wrapped (1 ∷ 2 ∷ 3 ∷ [])).0 ≡ 1
unfolding write
write-clamped = refl

run_refines_example : run wrapped script ≡ run_queue 4 (contents wrapped) script
run_refines_example = run_refines script wrapped-IsValid

write-append_example :
    let n = min 3 (4 - count wrapped) in
    let out = write wrapped (1 ∷ 2 ∷ 3 ∷ []) in
    (out.0 ≡ n)
    × (contents out.1 ≡ contents wrapped ++ take n (1 ∷ 2 ∷ 3 ∷ []))
    × IsValid out.1
    × (out.1.size ≡ 4)
write-append_example = write-append wrapped-IsValid (1 ∷ 2 ∷ 3 ∷ [])
