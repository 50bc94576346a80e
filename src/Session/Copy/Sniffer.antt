-- ===== src/Session/Copy/Sniffer.antt =====
-- `pop3sniff` of src/stm/copy.c: what a session does with the bytes that it shows to its sniffer.
-- src/pop3sniff.c does not compile, since two headers of `sniffer` stand in front of one body; so
-- `pop3_consume`, which runs it, is a parameter. `none` is a failed assertion or an access out of
-- bounds.
use pdc_20221c.Prelude.{
  ℕ, Option, some, Bool, true, ◌||◌, List, ◌==◌, leb, if◌then◌else◌, ◌>>=◌, pos, length, take,
  replicate, arith, length-replicate, [],
}
use pdc_20221c.Buffer.{Buffer, buffer_init, buffer_write_ptr, buffer_write_adv, fill}
use pdc_20221c.Buffer.Contents.{Holds, buffer_init-Holds}

-- `MAX_BUFFER_POP3_SIZE`, and the states of `enum pop3sniff_st` that are used here
abbrev pub max_buffer_pop3_size : ℕ
max_buffer_pop3_size = 4096

abbrev pub pop3_initial : ℕ
pop3_initial = 0

abbrev pub pop3_success : ℕ
pop3_success = 6

abbrev pub pop3_ended : ℕ
pop3_ended = 7

-- `struct pop3_sniff`
pub record Pop3Sniff : Type 0 where
  pub state : ℕ
  pub buffer : Buffer
  pub username : List ℕ
  pub password : List ℕ
  pub read : ℕ
  pub remaining : ℕ
  pub check_read : ℕ
  pub check_remaining : ℕ
  pub parsing : Bool

-- 3 is the length of the text "+OK".
unfoldable pub pop3_init : Pop3Sniff → Pop3Sniff
pop3_init sniff = record sniff {
  state = pop3_initial;
  buffer = buffer_init max_buffer_pop3_size (replicate max_buffer_pop3_size 0);
  read = 0;
  remaining = 3;
  parsing = true;
}

unfoldable pub pop3_done : Pop3Sniff → Bool
pop3_done sniff = sniff.state == pop3_ended || sniff.state == pop3_success

unfoldable pub pop3_parsing : Pop3Sniff → Bool
pop3_parsing sniff = sniff.parsing

-- The sniffer is begun where it has not.
unfoldable pub started : Pop3Sniff → Pop3Sniff
unfolding pop3_parsing
started sniff = if pop3_parsing sniff then sniff else pop3_init sniff

module _ {R : Type 0} (pop3_consume : Pop3Sniff → R → Option (Pop3Sniff × R)) where
  -- The sniffer and what it registers; bytes that do not fit its buffer are dropped.
  unfoldable pub pop3sniff : Pop3Sniff × R → List ℕ → Option (Pop3Sniff × R)
  pop3sniff (sniff, register_info) bytes =
      let s = started sniff in
      if pop3_done s
      then some (s, register_info)
      else (buffer_write_ptr s.buffer >>= λ (ptr, count).
          (if leb (length bytes) count
            then buffer_write_adv (fill s.buffer bytes) (pos (length bytes))
            else buffer_write_adv (fill s.buffer (take count bytes)) (pos count))
          >>= λ b. pop3_consume (record s { buffer = b }) register_info)

pub fresh-Holds : (s : Pop3Sniff) → Holds (pop3_init s).buffer []
unfolding pop3_init
fresh-Holds s =
    buffer_init-Holds max_buffer_pop3_size (replicate max_buffer_pop3_size 0)
      (omega (arith, length-replicate {A = ℕ} max_buffer_pop3_size 0))
