-- ===== src/Users/Credentials.antt =====
-- Passwords in src/user_utils.c: `edit_user` and `user_check_credentials`.
use pdc_20221c.Prelude.{
  ℕ, suc, ◌-◌, ◌≤◌, ◌<◌, ◌≡◌, refl, ap, sym, some, none, List, [], ◌∷◌, ◌++◌, true, arith,
  if◌then◌else◌, length, length-append, Bool-cases, inl, inr, ◌∙◌, leb, replicate,
}
use pdc_20221c.Users.{
  User, UserList, edit_first, edit_user, new_password, check_first, user_check_credentials,
}
use pdc_20221c.Users.Text.{HasText, ends, goes, same_text, strcmp_lem, strcpy_bytes_lem}
use pdc_20221c.Users.Lookup.{
  Entry, Shows, empty, more, Refines, has, distinct, change, admits, distinct-change, change_absent,
}
use pdc_20221c.Users.Table.{gone}

text-HasText :
    (rest : List ℕ) {block text : List ℕ}
    → HasText block text
    → HasText ((text ++ (0 ∷ [])) ++ rest) text
text-HasText rest (ends tail) = ends rest
text-HasText rest (goes t) = goes (text-HasText rest t)

new_password_lem :
    (password pass : List ℕ) (upass : ℕ)
    → HasText password pass
    → length pass < upass
    → (block : List ℕ) × (new_password password upass true ≡ some block) × HasText block pass
unfolding new_password
new_password_lem password pass upass h room =
    let bytes : List ℕ = pass ++ (0 ∷ []) in
    (
      bytes ++ replicate (upass - length bytes) 0,
      rw (strcpy_bytes_lem h) (fits pass upass room),
      text-HasText (replicate (upass - length bytes) 0) h,
    )
  where
    fits :
        (pass : List ℕ) (upass : ℕ)
        → length pass < upass
        → (if leb (length (pass ++ (0 ∷ []))) upass
            then some ((pass ++ (0 ∷ [])) ++ replicate (upass - length (pass ++ (0 ∷ []))) 0)
            else none)
          ≡ some ((pass ++ (0 ∷ [])) ++ replicate (upass - length (pass ++ (0 ∷ []))) 0)
    fits pass upass room = ground (arith, length-append pass (0 ∷ []))

edit_first_lem :
    (us : List User) (es : List Entry) (username name password pass : List ℕ) (upass : ℕ)
    → Shows us es
    → distinct es ≡ true
    → HasText username name
    → HasText password pass
    → length pass < upass
    → (us' : List User) × (edit_first us username password upass true ≡ some (has es name, us'))
      × Shows us' (change es name pass)
unfolding edit_first has change distinct
edit_first_lem [] [] username name password pass upass empty d h p room = ([], refl, empty)
edit_first_lem [] (y ∷ es) username name password pass upass none_such d h p room =
    elim none_such [ ]
edit_first_lem (x ∷ us) [] username name password pass upass none_such d h p room =
    elim none_such [ ]
edit_first_lem (x ∷ us) (y ∷ es) username name password pass upass (more is shows) d h p room =
    elim (Bool-cases (same_text y.name name)) [
      | inl same ↦
          let (block, made, hb) = new_password_lem password pass upass p room in
          (
            record x { password = block; upass = upass } ∷ us,
            rw (strcmp_lem is.named h, same, made) refl,
            rw (same, change_absent es name pass (gone es y.name name same d))
                (more (record { named = is.named; secret = hb; role = is.role }) shows),
          )
      | inr other ↦
          let (us', run, shows') =
            edit_first_lem us es username name password pass upass shows (ground arith) h p room in
          (x ∷ us', rw (strcmp_lem is.named h, other, run) refl, rw other (more is shows'))
    ]

length-change : (es : List Entry) (name pass : List ℕ) → length (change es name pass) ≡ length es
unfolding change
length-change [] name pass = refl
length-change (e ∷ es) name pass = ap suc (length-change es name pass)

-- Editing a user of a table of distinct names, with memory and a size that counts the terminator:
-- the result tells whether the name was there, and then that user, and no other, has the new
-- password.
pub edit_user_lem :
    (list : UserList) (es : List Entry) (username name password pass : List ℕ) (upass : ℕ)
    → Refines list es
    → HasText username name
    → HasText password pass
    → length pass < upass
    → (list' : UserList) × (edit_user list username password upass true ≡ some (has es name, list'))
      × Refines list' (change es name pass)
unfolding edit_user
edit_user_lem list es username name password pass upass r h p room =
    let (us', run, shows) =
      edit_first_lem list.first es username name password pass upass r.shows r.apart h p room in
    (
      record list { first = us' },
      rw run refl,
      record {
        shows = shows;
        counted = r.counted ∙ sym (length-change es name pass);
        apart = distinct-change es name pass r.apart;
      },
    )

-- A size that does not count the terminator makes the copy overrun the new block.
pub new_password-overrun :
    (password pass : List ℕ) (upass : ℕ)
    → HasText password pass
    → upass ≤ length pass
    → new_password password upass true ≡ none
unfolding new_password
new_password-overrun password pass upass h short =
    rw (strcpy_bytes_lem h) (ground (arith, length-append pass (0 ∷ [])))

check_first_lem :
    (us : List User) (es : List Entry) (uname name passwd pass : List ℕ)
    → Shows us es
    → HasText uname name
    → HasText passwd pass
    → check_first us uname passwd ≡ some (if admits es name pass then 0 else 1)
unfolding check_first admits
check_first_lem [] [] uname name passwd pass empty h p = refl
check_first_lem [] (y ∷ es) uname name passwd pass none_such h p = elim none_such [ ]
check_first_lem (x ∷ us) [] uname name passwd pass none_such h p = elim none_such [ ]
check_first_lem (x ∷ us) (y ∷ es) uname name passwd pass (more is shows) h p = ground (
  arith,
  strcmp_lem h is.named,
  strcmp_lem p is.secret,
  is.role,
  check_first_lem us es uname name passwd pass shows h p,
)

-- The credentials are accepted, with 0, exactly if an entry of the table is an administrator with
-- this name and this password; otherwise the result is 1.
pub user_check_credentials_lem :
    (list : UserList) (es : List Entry) (uname name passwd pass : List ℕ)
    → Refines list es
    → HasText uname name
    → HasText passwd pass
    → user_check_credentials list uname passwd ≡ some (if admits es name pass then 0 else 1)
unfolding user_check_credentials
user_check_credentials_lem list es uname name passwd pass r h p =
    check_first_lem list.first es uname name passwd pass r.shows h p
