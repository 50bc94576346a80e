-- ===== src/Prawtos/Access.antt =====
-- Who may use the configuration protocol: src/prawtos/auth_prawtos.c.
use pdc_20221c.Prelude.{
  ℕ, zero, suc, ◌-◌, ◌≤◌, ◌<◌, ◌≡◌, refl, some, Bool, true, false, ◌&&◌, not, List, [], ◌∷◌, ◌++◌,
  ◌==◌, if◌then◌else◌, ℤ, pos, length, write_at, arith, Bool-cases, inl, inr,
}
use pdc_20221c.Buffer.{Buffer, buffer_write_ptr, buffer_write_adv, fill}
use pdc_20221c.Buffer.Contents.{Holds, buffer_write_ptr_lem, buffer_write_adv_lem}
use pdc_20221c.Parser.Auth.{
  AuthParser, auth_version, auth_done, auth_consume, auth_is_done, auth_marshal, auth_success,
  auth_bad_credentials,
}
use pdc_20221c.Parser.Auth.Answer.{auth_marshal_lem}
use pdc_20221c.Parser.Auth.Message.{IsSized, auth_message, after_message, auth_consume-message}
use pdc_20221c.Parser.Field.{max_len}
use pdc_20221c.Prawtos.{
  PrawtosWorld, check_credentials, auth_prawtos_process, auth_finished, auth_prawtos_read,
  auth_write_prawtos,
}
use pdc_20221c.Selector.{FdSelector, selector_success, selector_set_interest_key, op_write}
use pdc_20221c.Selector.Invariant.{IsValid}
use pdc_20221c.Session.Copy.Interest.{IsUsed, set_interest_key_run}
use pdc_20221c.Users.Credentials.{user_check_credentials_lem}
use pdc_20221c.Users.Lookup.{Entry, Refines, admits}
use pdc_20221c.Users.Text.{HasText, ends, goes}

-- A text without a zero byte.
unfoldable pub is_plain : List ℕ → Bool
is_plain [] = true
is_plain (c ∷ cs) = not (c == 0) && is_plain cs

-- A text written to the start of an array with its terminator, and perhaps more.
pub write_at-HasText :
    (block text more : List ℕ)
    → is_plain text ≡ true
    → length text < length block
    → HasText (write_at block 0 (text ++ (0 ∷ more))) text
unfolding is_plain write_at
write_at-HasText [] text more p h = absurd (omega arith)
write_at-HasText (x ∷ block) [] more p h = ends _
write_at-HasText (x ∷ block) (zero ∷ text) more p h = absurd (ground arith)
write_at-HasText (x ∷ block) (suc c ∷ text) more p h =
    goes (write_at-HasText block text more (ground arith) (omega arith))

-- The status of an answer.
abbrev pub status_of : List Entry → List ℕ → List ℕ → ℕ
status_of es us ps = if admits es us ps then auth_success else auth_bad_credentials

module _ {H D : Type 0} where
  check_credentials_lem :
      (w : PrawtosWorld H D) (es : List Entry) (us ps : List ℕ)
      → Refines w.users es
      → HasText w.auth.auth.uname us
      → HasText w.auth.auth.passwd ps
      → check_credentials w ≡ some (status_of es us ps)
  unfolding check_credentials
  check_credentials_lem w es us ps r name pass =
      let checked =
        user_check_credentials_lem w.users es w.auth.auth.uname us w.auth.auth.passwd ps r name
          pass in
      elim (Bool-cases (admits es us ps)) [
        | inl found ↦ rw (checked, found) refl
        | inr missing ↦ rw (checked, missing) refl
      ]

  read_run :
      (w : PrawtosWorld H D) (fd : ℤ) (bytes : List ℕ) (status : ℕ) (b b' out : Buffer)
      (p : AuthParser) (s : FdSelector H D)
      → buffer_write_ptr w.read_buffer
        ≡ some (w.read_buffer.write, w.read_buffer.limit - w.read_buffer.write)
      → buffer_write_adv (fill w.read_buffer bytes) (pos (length bytes)) ≡ some b
      → auth_consume b w.auth (some false) ≡ some (auth_done, p, b', some false)
      → selector_set_interest_key w.selector fd op_write ≡ some (selector_success, s)
      → check_credentials (record w { auth = p; read_buffer = b'; selector = s }) ≡ some status
      → auth_marshal w.write_buffer status ≡ some (pos 2, out)
      → auth_prawtos_read w fd (some bytes)
        ≡ some (
          auth_write_prawtos,
          record w {
            auth = p;
            read_buffer = b';
            write_buffer = out;
            selector = s;
            auth_status = status;
          },
        )
  unfolding auth_prawtos_read auth_is_done auth_finished auth_prawtos_process
  read_run w fd bytes status b b' out p s ptr adv parsed interest checked answer =
      rw (auth_prawtos_read, ptr, adv, parsed, interest, checked, answer) refl

  -- A session of the configuration protocol whose parser waits for the user name, with its descriptor
  -- registered and room in its buffers, and that receives a whole message at once, with a name and a
  -- password of 1 to 254 bytes without a zero byte: the answer tells whether the table of users has
  -- an administrator with them, and this is what the session keeps as its status. The users stay as
  -- they are, bytes behind the message are kept, and the session waits to write.
  pub auth_prawtos_read_lem :
      (w : PrawtosWorld H D) (k : ℕ) (es : List Entry) (us ps rest : List ℕ)
      → w.auth.state ≡ auth_version
      → IsSized w.auth
      → 0 < length us
      → length us < max_len
      → 0 < length ps
      → length ps < max_len
      → is_plain us ≡ true
      → is_plain ps ≡ true
      → Refines w.users es
      → Holds w.read_buffer []
      → Holds w.write_buffer []
      → length (auth_message us ps rest) ≤ w.read_buffer.limit - w.read_buffer.write
      → 2 ≤ w.write_buffer.limit - w.write_buffer.write
      → IsValid w.selector
      → k < 1024
      → IsUsed w.selector k
      → (w' : PrawtosWorld H D) × (auth_prawtos_read w (pos k) (some (auth_message us ps rest))
          ≡ some (auth_write_prawtos, w'))
        × (w'.auth_status ≡ status_of es us ps)
        × Holds w'.write_buffer (0x01 ∷ status_of es us ps ∷ [])
        × Holds w'.read_buffer rest
        × (w'.users ≡ w.users)
        × (w'.selector.master_w k ≡ true)
  auth_prawtos_read_lem w k es us ps rest start sized nu su np sp plain plain' refines hin hout room
        answer_room valid small used =
      let bytes = auth_message us ps rest in
      let (b, adv, hb, lb) = buffer_write_adv_lem w.read_buffer [] bytes hin room in
      let (b', parsed, hrest, lb') =
        auth_consume-message b w.auth us ps rest (some false) start sized nu su np sp hb in
      let (s, interest, changed) = set_interest_key_run w.selector k op_write valid small used in
      let (out, answer, ho) =
        auth_marshal_lem w.write_buffer [] (status_of es us ps) hout answer_room in
      let checked =
        check_credentials_lem
          (record w { auth = after_message w.auth us ps; read_buffer = b'; selector = s }) es us ps
          refines (write_at-HasText w.auth.auth.uname us [] plain (omega (arith, sized.uname_size)))
          (write_at-HasText w.auth.auth.passwd ps [] plain' (omega (arith, sized.passwd_size))) in
      (
        record w {
          auth = after_message w.auth us ps;
          read_buffer = b';
          write_buffer = out;
          selector = s;
          auth_status = status_of es us ps;
        },
        read_run w (pos k) bytes (status_of es us ps) b b' out _ s
            (buffer_write_ptr_lem w.read_buffer hin.valid) adv parsed interest checked answer,
        refl,
        ho,
        hrest,
        refl,
        changed.writes_it,
      )
