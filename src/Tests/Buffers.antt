-- ===== src/Tests/Buffers.antt =====
-- The buffer of src/buffer.c on storage of eight bytes.
use pdc_20221c.Prelude.{◌≡◌, refl, none, some, [], ◌∷◌, pos}
use pdc_20221c.Buffer.{Buffer, buffer_read_adv, buffer_write_adv}

-- Three bytes, of which the first has been read.
abbrev pub two_left : Buffer
two_left = record { storage = 7 ∷ 8 ∷ 9 ∷ 0 ∷ 0 ∷ 0 ∷ 0 ∷ 0 ∷ []; limit = 8; read = 1; write = 3 }

-- When nothing is left the buffer starts again.
two_taken : buffer_read_adv two_left (pos 2) ≡ some (record two_left { read = 0; write = 0 })
unfolding buffer_read_adv
two_taken = refl

three_taken : buffer_read_adv two_left (pos 3) ≡ none
unfolding buffer_read_adv
three_taken = refl

six_announced : buffer_write_adv two_left (pos 6) ≡ none
unfolding buffer_write_adv
six_announced = refl
