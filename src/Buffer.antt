-- ===== src/Buffer.antt =====
-- src/buffer.c and include/buffer.h: a byte buffer with a read and a write position.
-- A pointer into the storage is its offset from `b->data`. A failed `assert` is `none`.
pub mod Contents
use pdc_20221c.Prelude.{
  ℕ, ◌+◌, ◌-◌, Option, none, some, List, Bool, ltb, leb, ◌==◌, if◌then◌else◌, ℤ, pos, negsuc,
  get_or, set, write_at, slice,
}

-- `struct buffer`
pub record Buffer : Type 0 where
  pub storage : List ℕ
  pub limit : ℕ
  pub read : ℕ
  pub write : ℕ

unfoldable pub buffer_reset : Buffer → Buffer
buffer_reset b = record b { read = 0; write = 0 }

unfoldable pub buffer_init : ℕ → List ℕ → Buffer
buffer_init n storage = record { storage = storage; limit = n; read = 0; write = 0 }

-- `b->limit - b->write > 0`, a signed difference of pointers
unfoldable pub buffer_can_write : Buffer → Bool
buffer_can_write b = ltb b.write b.limit

unfoldable pub buffer_can_read : Buffer → Bool
buffer_can_read b = ltb b.read b.write

-- The pointer and `*nbyte`.
unfoldable pub buffer_write_ptr : Buffer → Option (ℕ × ℕ)
buffer_write_ptr b = if leb b.write b.limit then some (b.write, b.limit - b.write) else none

unfoldable pub buffer_read_ptr : Buffer → Option (ℕ × ℕ)
buffer_read_ptr b = if leb b.read b.write then some (b.read, b.write - b.read) else none

-- `memmove` reads all of the source before it writes.
unfoldable pub buffer_compact : Buffer → Buffer
buffer_compact b =
    if b.read == 0
    then b
    else if b.read == b.write
    then record b { read = 0; write = 0 }
    else record b {
      storage = write_at b.storage 0 (slice b.read (b.write - b.read) b.storage);
      read = 0;
      write = b.write - b.read;
    }

unfoldable pub buffer_write_adv : Buffer → ℤ → Option Buffer
buffer_write_adv b (negsuc _) = some b
buffer_write_adv b (pos n) =
    if leb (b.write + n) b.limit then some (record b { write = b.write + n }) else none

unfoldable pub buffer_read_adv : Buffer → ℤ → Option Buffer
unfolding buffer_compact
buffer_read_adv b (negsuc _) = some b
buffer_read_adv b (pos n) =
    if leb (b.read + n) b.write
    then some (
        if b.read + n == b.write
        then buffer_compact (record b { read = b.read + n })
        else record b { read = b.read + n })
    else none

-- An empty buffer yields the byte 0.
unfoldable pub buffer_read : Buffer → Option (ℕ × Buffer)
unfolding buffer_can_read buffer_read_adv
buffer_read b =
    if buffer_can_read b
    then elim (buffer_read_adv b (pos 1)) [
      | some b' ↦ some (get_or b.storage b.read 0, b')
      | none ↦ none
    ]
    else some (0, b)

unfoldable pub buffer_write : Buffer → ℕ → Option Buffer
unfolding buffer_can_write buffer_write_adv
buffer_write b c =
    if buffer_can_write b
    then buffer_write_adv (record b { storage = set b.storage b.write c }) (pos 1)
    else some b

-- What a caller does with the pointer of `buffer_write_ptr` before it says how much it wrote:
-- `memcpy`, `recv` or assignments through the pointer.
unfoldable pub fill : Buffer → List ℕ → Buffer
fill b bytes = record b { storage = write_at b.storage b.write bytes }
