-- ===== src/Users/Unterminated.antt =====
-- A user whose size in src/user_utils.c does not count the terminator, as src/prawtos/cmd_prawtos.c
-- passes it where a request has the length of the name for ULEN.
use pdc_20221c.Prelude.{
  ℕ, ◌≡◌, refl, some, none, List, [], ◌∷◌, Bool, true, arith, length, take, ◌≤◌, ◌<◌, ◌+◌,
}
use pdc_20221c.Users.{
  User, UserList, strcmp, copied, new_user, add_user_rec, add_user, remove_first, delete_user,
}
use pdc_20221c.Users.Text.{HasText, ends, goes}

-- The copy has no terminator, so that a comparison with the same text runs past its end.
strcmp-take :
    {block ys text : List ℕ}
    → HasText block text
    → HasText ys text
    → strcmp (take (length text) block) ys ≡ none
unfolding strcmp
strcmp-take (ends rest) (ends rest') = refl
strcmp-take (goes s) (goes t) = ground (arith, strcmp-take s t)

length-HasText : {block text : List ℕ} → HasText block text → length text < length block
length-HasText (ends rest) = omega arith
length-HasText (goes h) = omega (arith, length-HasText h)

copied_prefix : (block : List ℕ) (n : ℕ) → n ≤ length block → copied block n ≡ some (take n block)
unfolding copied
copied_prefix block n h = ground arith

-- A name that is added to an empty table with a size that does not count its terminator is stored,
-- and the next comparison with that name, to delete it, reads past the end of the stored block.
pub add_user-unterminated :
    (username name password : List ℕ) (plen size : ℕ) (admin : Bool)
    → HasText username name
    → plen ≤ length password
    → (list' : UserList) × (add_user
          (record { first = []; size = size })
          username
          (length name)
          password
          plen
          admin
          true
        ≡ some (true, list'))
      × (delete_user list' username ≡ none)
unfolding add_user add_user_rec new_user delete_user remove_first
add_user-unterminated username name password plen size admin h le =
    let user : User = record {
      is_admin = admin;
      username = take (length name) username;
      ulen = length name;
      password = take plen password;
      upass = plen;
    } in
    (
      record { first = user ∷ []; size = size + 1 },
      rw
          (
            copied_prefix username (length name) (omega (arith, length-HasText h)),
            copied_prefix password plen le,
          )
          refl,
      rw (strcmp-take h h) refl,
    )
