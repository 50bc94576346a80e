-- ===== src/Users/Lookup.antt =====
-- The table of src/user_utils.c seen as a list of entries with distinct names.
use pdc_20221c.Prelude.{
  ℕ, ◌≡◌, refl, List, [], ◌∷◌, ◌++◌, Bool, true, false, ◌&&◌, ◌||◌, not, arith, if◌then◌else◌,
  length,
}
use pdc_20221c.Users.{User, UserList}
use pdc_20221c.Users.Text.{HasText, same_text, same_text_comm}

pub record Entry : Type 0 where
  pub name : List ℕ
  pub pass : List ℕ
  pub admin : Bool

-- The two blocks of a user hold these texts.
pub record IsUser (user : User) (e : Entry) : Type 0 where
  pub named : HasText user.username e.name
  pub secret : HasText user.password e.pass
  pub role : user.is_admin ≡ e.admin

pub data Shows : List User → List Entry → Type 0 where
  empty : Shows [] []
  more :
      {u : User} {e : Entry} {us : List User} {es : List Entry}
      → IsUser u e
      → Shows us es
      → Shows (u ∷ us) (e ∷ es)

-- Is there an entry with this name?
unfoldable pub has : List Entry → List ℕ → Bool
has [] name = false
has (e ∷ es) name = same_text e.name name || has es name

-- No name occurs twice.
unfoldable pub distinct : List Entry → Bool
unfolding has
distinct [] = true
distinct (e ∷ es) = not (has es e.name) && distinct es

-- The table holds these entries, and `size` is their number.
pub record Refines (list : UserList) (es : List Entry) : Type 0 where
  pub shows : Shows list.first es
  pub counted : list.size ≡ length es
  pub apart : distinct es ≡ true

-- The entries without a name, and with a new password for a name.
unfoldable pub erase : List Entry → List ℕ → List Entry
erase [] name = []
erase (e ∷ es) name = let rest = erase es name in if same_text e.name name then rest else e ∷ rest

unfoldable pub change : List Entry → List ℕ → List ℕ → List Entry
change [] name pass = []
change (e ∷ es) name pass =
    (if same_text e.name name then record e { pass = pass } else e) ∷ change es name pass

-- Is there an administrator with these credentials?
unfoldable pub admits : List Entry → List ℕ → List ℕ → Bool
admits [] name pass = false
admits (e ∷ es) name pass =
    (same_text name e.name && (same_text pass e.pass && e.admin)) || admits es name pass

-- What is in a longer, a shorter and a changed list.
has_append :
    (es : List Entry) (e : Entry) (name : List ℕ)
    → has (es ++ (e ∷ [])) name ≡ (has es name || same_text e.name name)
unfolding has
has_append [] e name = ground arith
has_append (x ∷ es) e name = ground (arith, has_append es e name)

pub distinct_append :
    (es : List Entry) (e : Entry)
    → distinct es ≡ true
    → has es e.name ≡ false
    → distinct (es ++ (e ∷ [])) ≡ true
unfolding distinct has
distinct_append [] e d h = refl
distinct_append (x ∷ es) e d h =
    ground (arith, distinct_append es e, has_append es e x.name, same_text_comm e.name x.name)

has-erase :
    (es : List Entry) (name other : List ℕ)
    → has es other ≡ false
    → has (erase es name) other ≡ false
unfolding has erase
has-erase [] name other h = refl
has-erase (e ∷ es) name other h = ground (arith, has-erase es name other)

pub distinct-erase :
    (es : List Entry) (name : List ℕ) → distinct es ≡ true → distinct (erase es name) ≡ true
unfolding distinct erase
distinct-erase [] name d = refl
distinct-erase (e ∷ es) name d = ground (arith, distinct-erase es name, has-erase es name e.name)

pub erase_absent : (es : List Entry) (name : List ℕ) → has es name ≡ false → erase es name ≡ es
unfolding has erase
erase_absent [] name h = refl
erase_absent (e ∷ es) name h = ground (arith, erase_absent es name)

has-change :
    (es : List Entry) (name pass other : List ℕ) → has (change es name pass) other ≡ has es other
unfolding has change
has-change [] name pass other = refl
has-change (e ∷ es) name pass other = ground (arith, has-change es name pass other)

pub distinct-change :
    (es : List Entry) (name pass : List ℕ)
    → distinct es ≡ true
    → distinct (change es name pass) ≡ true
unfolding distinct change
distinct-change [] name pass d = refl
distinct-change (e ∷ es) name pass d =
    ground (arith, distinct-change es name pass, has-change es name pass e.name)

pub change_absent :
    (es : List Entry) (name pass : List ℕ) → has es name ≡ false → change es name pass ≡ es
unfolding has change
change_absent [] name pass h = refl
change_absent (e ∷ es) name pass h = ground (arith, change_absent es name pass)
