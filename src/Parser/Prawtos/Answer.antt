-- ===== src/Parser/Prawtos/Answer.antt =====
-- src/parser/prawtos_parser.c: the answers that the server writes, `get_marshal`, `user_marshal` and
-- `quit_marshal`. A C `int` result is an integer, -1 for a full buffer.
use pdc_20221c.Prelude.{
  ℕ, ◌+◌, ◌-◌, ◌≤◌, ◌<◌, ◌≡◌, refl, Option, none, some, false, List, [], ◌∷◌, ◌++◌, ltb, leb,
  if◌then◌else◌, ◌>>=◌, ℤ, pos, negsuc, length, arith, Bool-cases, inl, inr,
}
use mathlib.Core.List.{append_assoc}
use pdc_20221c.Buffer.{Buffer, buffer_write_ptr, buffer_write_adv, fill}
use pdc_20221c.Buffer.Contents.{Holds, buffer_write_ptr_lem, buffer_write_adv_lem}

-- `args_len` is the number of bytes at `args`, of which the first is read for the test of the room.
unfoldable pub get_marshal : Buffer → ℕ → ℕ → ℕ → List ℕ → Option (ℤ × Buffer)
get_marshal b status cmd nargs [] = none
get_marshal b status cmd nargs (first ∷ args) = buffer_write_ptr b >>= λ (ptr, count).
    if ltb count (first + 1)
    then some (negsuc 0, b)
    else (buffer_write_adv (fill b (status ∷ cmd ∷ nargs ∷ [])) (pos 3) >>= λ b1.
        buffer_write_adv (fill b1 (first ∷ args)) (pos (length (first ∷ args))) >>= λ b2.
        some (pos (3 + length (first ∷ args)), b2))

-- The same for `args_len` 0, which is what a listing that fails leaves: the first byte at `args` is
-- still read, and no argument is written.
unfoldable pub get_marshal_empty : Buffer → ℕ → ℕ → ℕ → List ℕ → Option (ℤ × Buffer)
get_marshal_empty b status cmd nargs [] = none
get_marshal_empty b status cmd nargs (first ∷ args) = buffer_write_ptr b >>= λ (ptr, count).
    if ltb count (first + 1)
    then some (negsuc 0, b)
    else (buffer_write_adv (fill b (status ∷ cmd ∷ nargs ∷ [])) (pos 3) >>= λ b1.
        buffer_write_adv b1 (pos 0) >>= λ b2. some (pos 3, b2))

unfoldable pub user_marshal : Buffer → ℕ → Option (ℤ × Buffer)
user_marshal b status = buffer_write_ptr b >>= λ (ptr, count).
    if ltb count 1
    then some (negsuc 0, b)
    else (buffer_write_adv (fill b (status ∷ [])) (pos 1) >>= λ b1. some (pos 1, b1))

unfoldable pub quit_marshal : Buffer → ℕ → Option (ℤ × Buffer)
quit_marshal b status = buffer_write_ptr b >>= λ (ptr, count).
    if ltb count 1
    then some (negsuc 0, b)
    else (buffer_write_adv (fill b (status ∷ [])) (pos 1) >>= λ b1. some (pos 1, b1))

-- The answer to a change of the users, and the one to the end of a session: one byte is appended and
-- 1 returned, or -1 and the buffer stays as it was if it has no room.
pub user_marshal_lem :
    (b : Buffer) (bytes : List ℕ) (status : ℕ)
    → Holds b bytes
    → (b' : Buffer) × (user_marshal b status
        ≡ some (if ltb (b.limit - b.write) 1 then negsuc 0 else pos 1, b'))
      × (quit_marshal b status ≡ user_marshal b status)
      × Holds b' (if ltb (b.limit - b.write) 1 then bytes else bytes ++ (status ∷ []))
unfolding user_marshal quit_marshal
user_marshal_lem b bytes status h = elim (Bool-cases (ltb (b.limit - b.write) 1)) [
  | inl t ↦ (b, rw (buffer_write_ptr_lem b h.valid, t) refl, refl, rw t h)
  | inr t ↦
      let (b', adv, h', l) = buffer_write_adv_lem b bytes (status ∷ []) h (ground arith) in
      (b', rw (buffer_write_ptr_lem b h.valid, t, adv) refl, refl, rw t h')
]

-- A write moves the write position by the number of bytes.
advanced_room :
    (b b1 : Buffer) (xs : List ℕ) (n : ℕ)
    → buffer_write_adv (fill b xs) (pos n) ≡ some b1
    → (b1.limit ≡ b.limit) × (b1.write ≡ b.write + n)
unfolding buffer_write_adv fill
advanced_room b b1 xs n e = ground arith

fill_overflow :
    (b : Buffer) (xs : List ℕ) (n : ℕ)
    → b.limit < b.write + n
    → buffer_write_adv (fill b xs) (pos n) ≡ none
unfolding buffer_write_adv fill
fill_overflow b xs n h = ground arith

-- On a well-formed buffer with room for the whole answer to a GET request, whose arguments start with
-- a number that the room exceeds, the answer is appended and its length returned.
pub get_marshal_lem :
    (b : Buffer) (bytes args : List ℕ) (status cmd nargs first : ℕ)
    → Holds b bytes
    → 3 + length (first ∷ args) ≤ b.limit - b.write
    → first < b.limit - b.write
    → (b' : Buffer) × (get_marshal b status cmd nargs (first ∷ args)
        ≡ some (pos (3 + length (first ∷ args)), b'))
      × Holds b' (bytes ++ (status ∷ cmd ∷ nargs ∷ first ∷ args))
unfolding get_marshal
get_marshal_lem b bytes args status cmd nargs first h room small =
    let (b1, adv1, h1, l1) =
      buffer_write_adv_lem b bytes (status ∷ cmd ∷ nargs ∷ []) h (omega arith) in
    let (_, moved) = advanced_room b b1 (status ∷ cmd ∷ nargs ∷ []) 3 adv1 in
    let (b2, adv2, h2, l2) =
      buffer_write_adv_lem b1 (bytes ++ (status ∷ cmd ∷ nargs ∷ [])) (first ∷ args) h1
        (omega (arith, l1, moved)) in
    let fits : ltb (b.limit - b.write) (first + 1) ≡ false = ground arith in
    (
      b2,
      rw (buffer_write_ptr_lem b h.valid, fits, adv1, adv2) refl,
      rw (append_assoc bytes (status ∷ cmd ∷ nargs ∷ []) (first ∷ args)) at h2,
    )

-- The test of the room looks at the first argument only: on a well-formed buffer that has more room
-- than that number, but too little for the whole answer, an assertion fails.
pub get_marshal-overflow :
    (b : Buffer) (bytes args : List ℕ) (status cmd nargs first : ℕ)
    → Holds b bytes
    → first < b.limit - b.write
    → b.limit - b.write < 3 + length (first ∷ args)
    → get_marshal b status cmd nargs (first ∷ args) ≡ none
unfolding get_marshal
get_marshal-overflow b bytes args status cmd nargs first h small short =
    let fits : ltb (b.limit - b.write) (first + 1) ≡ false = ground arith in
    elim (Bool-cases (leb 3 (b.limit - b.write))) [
      | inr none_fits ↦
          rw
            (
              buffer_write_ptr_lem b h.valid,
              fits,
              fill_overflow b (status ∷ cmd ∷ nargs ∷ []) 3 (ground arith),
            )
            refl
      | inl header ↦
          let (b1, adv1, h1, l1) =
            buffer_write_adv_lem b bytes (status ∷ cmd ∷ nargs ∷ []) h (ground arith) in
          let (_, moved) = advanced_room b b1 (status ∷ cmd ∷ nargs ∷ []) 3 adv1 in
          rw
            (
              buffer_write_ptr_lem b h.valid,
              fits,
              adv1,
              fill_overflow b1 (first ∷ args) (length (first ∷ args))
                  (omega (arith, l1, moved, h.valid.write_le)),
            )
            refl
    ]
