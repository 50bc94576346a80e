-- ===== src/Buffer/Contents.antt =====
-- The buffer of src/buffer.c as a bounded queue of bytes: the representation invariant, and what
-- each operation does to the bytes between the two positions.
use pdc_20221c.Prelude.{
  ℕ, ◌+◌, ◌-◌, ◌≤◌, ◌<◌, ◌≡◌, refl, ap, inl, inr, some, none, List, [], ◌∷◌, ◌++◌, true, false,
  arith, ltb, pos, length, get_or, write_at, slice, length-write_at, length-slice, slice-head,
  set-eq-write_at, slice-write_at, slice-write_at_zero, Bool-cases, le→leb, length-append,
  slice-suffix, ◌==◌, if◌then◌else◌, ◌∙◌,
}
use pdc_20221c.Buffer.{
  Buffer, buffer_init, buffer_can_write, buffer_can_read, buffer_write_ptr, buffer_read_ptr,
  buffer_compact, buffer_write_adv, buffer_read_adv, buffer_read, buffer_write, fill,
}

-- `R <= W <= limit`, inside the storage.
pub record IsValid (b : Buffer) : Type 0 where
  pub read_le : b.read ≤ b.write
  pub write_le : b.write ≤ b.limit
  pub stored : b.limit ≤ length b.storage

-- The bytes that were written and not yet read, oldest first.
abbrev pub contents : Buffer → List ℕ
contents b = slice b.read (b.write - b.read) b.storage

pub length-contents : (b : Buffer) → IsValid b → length (contents b) ≡ b.write - b.read
length-contents b v = length-slice b.read (b.write - b.read) b.storage (omega arith)

-- The buffer is well formed and holds these bytes.
pub record Holds (b : Buffer) (bytes : List ℕ) : Type 0 where
  pub valid : IsValid b
  pub bytes_eq : contents b ≡ bytes

pub length-Holds : (b : Buffer) (bytes : List ℕ) → Holds b bytes → b.write ≡ b.read + length bytes
length-Holds b bytes h = omega (arith, length-contents b h.valid, ap length h.bytes_eq, h.valid)

-- A new buffer over enough storage is well formed and empty.
pub buffer_init-Holds : (n : ℕ) (s : List ℕ) → n ≤ length s → Holds (buffer_init n s) []
unfolding buffer_init
buffer_init-Holds n s h = record { valid = omega arith; bytes_eq = refl }

slice_cong : (i j n m : ℕ) (xs ys : List ℕ) → i ≡ j → n ≡ m → slice i n xs ≡ ys → slice j m xs ≡ ys
slice_cong i j n m xs ys e f h = rw (← e, ← f) h

-- Compaction of a well-formed buffer moves the unread bytes to the front, and changes nothing that a
-- reader sees.
buffer_compact-Holds :
    (b : Buffer) (bytes : List ℕ)
    → Holds b bytes
    → Holds (buffer_compact b) bytes
      × ((buffer_compact b).read ≡ 0)
      × ((buffer_compact b).write ≡ length bytes)
      × ((buffer_compact b).limit ≡ b.limit)
unfolding buffer_compact
buffer_compact-Holds b bytes h =
    let n : ℕ = b.write - b.read in
    let v : IsValid b = h.valid in
    let len : b.write ≡ b.read + length bytes = length-Holds b bytes h in
    let moved : slice 0 (length (contents b)) (write_at b.storage 0 (contents b)) ≡ contents b =
      slice-write_at_zero b.storage (contents b) (omega (arith, length-contents b v)) in
    ground (
      arith,
      moved,
      length-contents b v,
      length-write_at b.storage 0 (contents b),
      h.bytes_eq,
      v.read_le,
    )

-- A reader finds a byte exactly if one is held.
pub buffer_can_read_lem :
    (b : Buffer) (bytes : List ℕ) → Holds b bytes → buffer_can_read b ≡ ltb 0 (length bytes)
unfolding buffer_can_read
buffer_can_read_lem b bytes h = ground (arith, length-Holds b bytes h)

pub buffer_can_read-cons :
    (b : Buffer) (c : ℕ) (cs : List ℕ) → Holds b (c ∷ cs) → buffer_can_read b ≡ true
unfolding buffer_can_read
buffer_can_read-cons b c cs h = ground (arith, length-Holds b (c ∷ cs) h)

pub buffer_can_read-nil : (b : Buffer) → Holds b [] → buffer_can_read b ≡ false
unfolding buffer_can_read
buffer_can_read-nil b h = ground (arith, length-Holds b [] h)

-- Room is left exactly if the writer has not reached the limit.
pub buffer_can_write_lem : (b : Buffer) → buffer_can_write b ≡ ltb b.write b.limit
unfolding buffer_can_write
buffer_can_write_lem b = refl

abbrev advanced : Buffer → ℕ → Buffer
advanced b n =
    if b.read + n == b.write
    then buffer_compact (record b { read = b.read + n })
    else record b { read = b.read + n }

dropped-Holds :
    (b : Buffer) (xs ys : List ℕ)
    → Holds b (xs ++ ys)
    → Holds (record b { read = b.read + length xs }) ys
dropped-Holds b xs ys h = record {
  valid = omega (arith, length-Holds b (xs ++ ys) h, length-append xs ys, h.valid);
  bytes_eq =
      slice-suffix b.read (b.write - b.read) (b.read + length xs) (b.write - (b.read + length xs))
        b.storage xs ys (omega arith)
        (omega (arith, length-Holds b (xs ++ ys) h, length-append xs ys)) h.bytes_eq;
}

advanced-Holds :
    (b : Buffer) (xs ys : List ℕ)
    → Holds b (xs ++ ys)
    → Holds (advanced b (length xs)) ys
      × ((advanced b (length xs)).limit ≡ b.limit)
      × (ys ≡ [] → (advanced b (length xs)).write ≡ 0)
advanced-Holds b xs ys h =
    let d = dropped-Holds b xs ys h in
    let len : b.write ≡ b.read + length xs + length ys =
      omega (arith, length-Holds b (xs ++ ys) h, length-append xs ys) in
    let (c0, c1, c2, c3) = buffer_compact-Holds (record b { read = b.read + length xs }) ys d in
    elim (Bool-cases (b.read + length xs == b.write)) [
      | inl e ↦ rw e (c0, c3, λ z. omega (arith, c2, ap length z))
      | inr e ↦ rw e (d, refl, λ z. absurd (ground (arith, ap length z)))
    ]

-- Advancing the reader over bytes that are held passes the assertion and drops them. When none is
-- left the buffer compacts itself.
pub buffer_read_adv_lem :
    (b : Buffer) (xs ys : List ℕ)
    → Holds b (xs ++ ys)
    → (b' : Buffer) × (buffer_read_adv b (pos (length xs)) ≡ some b')
      × Holds b' ys
      × (b'.limit ≡ b.limit)
      × (ys ≡ [] → b'.write ≡ 0)
unfolding buffer_read_adv
buffer_read_adv_lem b xs ys h =
    let (a0, a1, a2) = advanced-Holds b xs ys h in
    let len : b.read + length xs ≤ b.write =
      omega (arith, length-Holds b (xs ++ ys) h, length-append xs ys) in
    (advanced b (length xs), rw (le→leb _ _ len) refl, a0, a1, a2)

-- Reading from a buffer takes its oldest byte and passes the assertion.
pub buffer_read_lem :
    (b : Buffer) (c : ℕ) (cs : List ℕ)
    → Holds b (c ∷ cs)
    → (b' : Buffer) × (buffer_read b ≡ some (c, b'))
      × Holds b' cs
      × (b'.limit ≡ b.limit)
      × (cs ≡ [] → b'.write ≡ 0)
unfolding buffer_read
buffer_read_lem b c cs h =
    let (b', e, h', l, z) = buffer_read_adv_lem b (c ∷ []) cs h in
    let first : get_or b.storage b.read 0 ≡ c =
      slice-head b.read (b.write - b.read) b.storage 0 c cs h.bytes_eq in
    (b', rw (buffer_can_read-cons b c cs h, e, first) refl, h', l, z)

-- Bytes stored behind the write pointer of a well-formed buffer, with room for them, and then
-- announced, pass the assertion and are appended.
pub buffer_write_adv_lem :
    (b : Buffer) (bytes xs : List ℕ)
    → Holds b bytes
    → length xs ≤ b.limit - b.write
    → (b' : Buffer) × (buffer_write_adv (fill b xs) (pos (length xs)) ≡ some b')
      × Holds b' (bytes ++ xs)
      × (b'.limit ≡ b.limit)
unfolding fill buffer_write_adv
buffer_write_adv_lem b bytes xs h fits = (
  record b { storage = write_at b.storage b.write xs; write = b.write + length xs },
  ground (arith, h.valid),
  record {
    valid = omega (arith, h.valid, length-write_at b.storage b.write xs);
    bytes_eq =
        slice-write_at b.read (b.write - b.read) b.write (b.write + length xs - b.read) b.storage xs
          (omega (arith, h.valid)) (omega (arith, h.valid)) (omega (arith, h.valid))
        ∙ ap (λ t. t ++ xs) h.bytes_eq;
  },
  refl,
)

-- The pointer and the number of bytes that a writer may store there.
pub buffer_write_ptr_lem :
    (b : Buffer) → IsValid b → buffer_write_ptr b ≡ some (b.write, b.limit - b.write)
unfolding buffer_write_ptr
buffer_write_ptr_lem b v = rw (le→leb _ _ v.write_le)

-- A reader is offered all the unread bytes.
pub buffer_read_ptr_lem :
    (b : Buffer) (bytes : List ℕ) → Holds b bytes → buffer_read_ptr b ≡ some (b.read, length bytes)
unfolding buffer_read_ptr
buffer_read_ptr_lem b bytes h = ground (arith, length-Holds b bytes h, h.valid.read_le)

-- Announcing more bytes than there is room for fails the assertion.
pub buffer_write_adv-overflow :
    (b : Buffer) (n : ℕ) → b.limit < b.write + n → buffer_write_adv b (pos n) ≡ none
unfolding buffer_write_adv
buffer_write_adv-overflow b n h = ground arith

-- A byte written to a well-formed buffer with room is appended; a full buffer stays as it is.
buffer_write_lem :
    (b : Buffer) (bytes : List ℕ) (c : ℕ)
    → Holds b bytes
    → (b' : Buffer) × (buffer_write b c ≡ some b')
      × Holds b' (if ltb b.write b.limit then bytes ++ (c ∷ []) else bytes)
      × (b'.limit ≡ b.limit)
unfolding buffer_write fill
buffer_write_lem b bytes c h = elim (Bool-cases (ltb b.write b.limit)) [
  | inr e ↦ (b, rw (buffer_can_write_lem b, e) refl, rw e h, refl)
  | inl e ↦
      let (b', adv, h', l) = buffer_write_adv_lem b bytes (c ∷ []) h (ground arith) in
      (b', rw (buffer_can_write_lem b, e, set-eq-write_at) adv, rw e h', l)
]

-- The same for a count that equals the number of bytes stored.
pub buffer_write_adv-count :
    (b : Buffer) (bytes xs : List ℕ) (n : ℕ)
    → Holds b bytes
    → n ≡ length xs
    → n ≤ b.limit - b.write
    → (b' : Buffer) × (buffer_write_adv (fill b xs) (pos n) ≡ some b')
      × Holds b' (bytes ++ xs)
      × (b'.limit ≡ b.limit)
buffer_write_adv-count b bytes xs n h e fits =
    rw e (buffer_write_adv_lem b bytes xs h (rw e at fits))
