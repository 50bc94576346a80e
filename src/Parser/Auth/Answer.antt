-- ===== src/Parser/Auth/Answer.antt =====
-- `auth_marshal` of src/parser/auth_parser.c writes two bytes behind those that wait.
use pdc_20221c.Prelude.{ℕ, ◌-◌, ◌≤◌, ◌≡◌, refl, some, false, List, [], ◌∷◌, ◌++◌, pos, arith, ltb}
use pdc_20221c.Buffer.{Buffer}
use pdc_20221c.Buffer.Contents.{Holds, buffer_write_ptr_lem, buffer_write_adv_lem}
use pdc_20221c.Parser.Auth.{auth_marshal}

pub auth_marshal_lem :
    (b : Buffer) (bytes : List ℕ) (status : ℕ)
    → Holds b bytes
    → 2 ≤ b.limit - b.write
    → (b' : Buffer) × (auth_marshal b status ≡ some (pos 2, b'))
      × Holds b' (bytes ++ (0x01 ∷ status ∷ []))
unfolding auth_marshal
auth_marshal_lem b bytes status h room =
    let (b', adv, h', l) = buffer_write_adv_lem b bytes (0x01 ∷ status ∷ []) h room in
    let fits : ltb (b.limit - b.write) 2 ≡ false = ground arith in
    (b', rw (buffer_write_ptr_lem b h.valid, fits, adv) refl, h')
