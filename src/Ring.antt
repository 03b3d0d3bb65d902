-- ===== src/Ring.antt =====
-- kernel/src/anbo_rb.c: the byte ring buffer. Its two indices run freely over 32 bits, and an
-- access masks them. A function that updates `*rb` returns the new ring beside its result.
pub mod Valid
pub mod Window
pub mod Bytes
pub mod Bulk
pub mod Session
mod Examples
use anbo_mos.Common.{
  ℕ, zero, suc, ◌+◌, ◌-◌, ◌^◌, bit_and, Bool, true, false, not, ◌&&◌, ◌||◌, Option, none, some,
  List, [], ◌∷◌, Status, ok, failed, ltb, ◌==◌, if◌then◌else◌, get_or, set, take, length, add32,
  sub32, replicate,
}

-- `Anbo_RB`, with the storage that `buf` points to. Bytes are moved, never computed with.
pub record Ring : Type 0 where
  pub buf : List ℕ
  pub size : ℕ
  pub mask : ℕ
  pub head : ℕ
  pub tail : ℕ

-- What `ANBO_RB_DEF(name, order)` sets up, with the storage of zeros of a static array.
unfoldable pub def_ring : ℕ → Ring
def_ring order = record {
  buf = replicate (2 ^ order) 0;
  size = 2 ^ order;
  mask = sub32 (2 ^ order) 1;
  head = 0;
  tail = 0;
}

unfoldable pub is_power_of_two : ℕ → Bool
is_power_of_two v = not (v == 0) && bit_and v (sub32 v 1) == 0

-- `none` for `rb` and for `buf` is `NULL`; a result `none` is the return of -1.
unfoldable pub init : Option Ring → Option (List ℕ) → ℕ → Option Ring
unfolding is_power_of_two
init none buf size = none
init (some rb) none size = none
init (some rb) (some buf) size =
    if not (is_power_of_two size)
    then none
    else some (record { buf = buf; size = size; mask = sub32 size 1; head = 0; tail = 0 })

unfoldable pub reset : Ring → Ring
reset rb = record rb { head = 0; tail = 0 }

unfoldable pub count : Ring → ℕ
count rb = sub32 rb.head rb.tail

unfoldable pub free : Ring → ℕ
unfolding count
free rb = sub32 rb.size (count rb)

unfoldable pub is_empty : Ring → Bool
is_empty rb = rb.head == rb.tail

unfoldable pub is_full : Ring → Bool
unfolding count
is_full rb = count rb == rb.size

-- `rb->buf[rb->head & rb->mask] = byte; rb->head++;`
unfoldable pub store_byte : Ring → ℕ → Ring
store_byte rb byte = record rb {
  buf = set rb.buf (bit_and rb.head rb.mask) byte;
  head = add32 rb.head 1;
}

-- `rb->buf[idx & rb->mask]`
unfoldable pub byte_at : Ring → ℕ → ℕ
byte_at rb idx = get_or rb.buf (bit_and idx rb.mask) 0

unfoldable pub put_byte : Ring → ℕ → Status × Ring
unfolding is_full store_byte
put_byte rb byte = if is_full rb then (failed, rb) else (ok, store_byte rb byte)

-- `none` is the return of -1, where `*byte` is left alone.
unfoldable pub get_byte : Ring → Option ℕ × Ring
unfolding is_empty byte_at
get_byte rb =
    if is_empty rb
    then (none, rb)
    else (some (byte_at rb rb.tail), record rb { tail = add32 rb.tail 1 })

-- `if (len > limit) len = limit;`
unfoldable pub clamp : ℕ → ℕ → ℕ
clamp len limit = if ltb limit len then limit else len

-- The loop of `Anbo_RB_Write` over the bytes that are left.
unfoldable pub write_loop : Ring → List ℕ → Ring
unfolding store_byte
write_loop rb [] = rb
write_loop rb (byte ∷ rest) = write_loop (store_byte rb byte) rest

-- `data` with its `len` is the list of its `len` bytes.
unfoldable pub write : Ring → List ℕ → ℕ × Ring
unfolding free clamp write_loop
write rb data' = let len = clamp (length data') (free rb) in (len, write_loop rb (take len data'))

-- The loop of `Anbo_RB_Read` with `n` rounds left: the bytes stored through `data`.
unfoldable pub read_loop : ℕ → Ring → List ℕ × Ring
unfolding byte_at
read_loop zero rb = ([], rb)
read_loop (suc n) rb =
    let (bytes, rb') = read_loop n (record rb { tail = add32 rb.tail 1 }) in
    (byte_at rb rb.tail ∷ bytes, rb')

-- The length of the result is the returned `len`.
unfoldable pub read : Ring → ℕ → List ℕ × Ring
unfolding count clamp read_loop
read rb len = read_loop (clamp len (count rb)) rb

unfoldable pub peek_loop : Ring → ℕ → ℕ → List ℕ
unfolding byte_at
peek_loop rb zero idx = []
peek_loop rb (suc n) idx = byte_at rb idx ∷ peek_loop rb n (add32 idx 1)

unfoldable pub peek : Ring → ℕ → List ℕ
unfolding count clamp peek_loop
peek rb len = peek_loop rb (clamp len (count rb)) rb.tail

unfoldable pub skip : Ring → ℕ → ℕ × Ring
unfolding count clamp
skip rb len = let n = clamp len (count rb) in (n, record rb { tail = add32 rb.tail n })
