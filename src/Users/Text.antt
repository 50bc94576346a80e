-- ===== src/Users/Text.antt =====
-- The text at the start of a block, and what `strcmp`, `strcpy` and `memcpy` of src/user_utils.c make
-- of it.
use pdc_20221c.Prelude.{
  ℕ, zero, suc, ◌≤◌, ◌<◌, ◌≡◌, refl, some, List, [], ◌∷◌, ◌++◌, Bool, true, false, arith, ◌==◌,
  length, take,
}
use pdc_20221c.Users.{strcmp, strcpy_bytes, copied}

-- The block holds this text, without a zero byte, and its terminator.
pub data HasText : List ℕ → List ℕ → Type 0 where
  ends : (rest : List ℕ) → HasText (0 ∷ rest) []
  goes : {c : ℕ} {block text : List ℕ} → HasText block text → HasText (suc c ∷ block) (suc c ∷ text)

-- Equality of texts.
unfoldable pub same_text : List ℕ → List ℕ → Bool
same_text [] [] = true
same_text [] (b ∷ ys) = false
same_text (a ∷ xs) [] = false
same_text (a ∷ xs) (b ∷ ys) = elim (a == b) [ true ↦ same_text xs ys | false ↦ false ]

-- On blocks that are terminated `strcmp` stays inside of them and compares the texts.
pub strcmp_lem :
    {xs ys s t : List ℕ} → HasText xs s → HasText ys t → strcmp xs ys ≡ some (same_text s t)
unfolding strcmp same_text
strcmp_lem (ends rest) (ends rest') = refl
strcmp_lem (ends rest) (goes t) = ground arith
strcmp_lem (goes s) (ends rest) = ground arith
strcmp_lem (goes s) (goes t) = ground (arith, strcmp_lem s t)

pub same_text_refl : (s : List ℕ) → same_text s s ≡ true
unfolding same_text
same_text_refl [] = refl
same_text_refl (c ∷ s) = ground (arith, same_text_refl s)

pub same_text-eq : (s t : List ℕ) → same_text s t ≡ true → s ≡ t
unfolding same_text
same_text-eq [] [] h = refl
same_text-eq [] (b ∷ t) h = absurd (ground arith)
same_text-eq (a ∷ s) [] h = absurd (ground arith)
same_text-eq (a ∷ s) (b ∷ t) h = ground (arith, same_text-eq s t)

-- `strcpy` copies the text and the terminator.
pub strcpy_bytes_lem :
    {block text : List ℕ} → HasText block text → strcpy_bytes block ≡ some (text ++ (0 ∷ []))
unfolding strcpy_bytes
strcpy_bytes_lem (ends rest) = refl
strcpy_bytes_lem (goes t) = rw (strcpy_bytes_lem t) refl

-- A copy of more bytes than the text has is terminated.
pub take-HasText :
    {block text : List ℕ} (n : ℕ)
    → HasText block text
    → length text < n
    → HasText (take n block) text
take-HasText zero h lt = absurd (omega arith)
take-HasText (suc n) (ends rest) lt = ends (take n rest)
take-HasText (suc n) (goes t) lt = goes (take-HasText n t (omega arith))

pub copied_lem :
    {block text : List ℕ} (n : ℕ)
    → HasText block text
    → length text < n
    → n ≤ length block
    → (copy : List ℕ) × (copied block n ≡ some copy) × HasText copy text
unfolding copied
copied_lem n h lt le = (take n _, ground arith, take-HasText n h lt)

pub same_text_comm : (s t : List ℕ) → same_text s t ≡ same_text t s
unfolding same_text
same_text_comm [] [] = refl
same_text_comm [] (b ∷ t) = refl
same_text_comm (a ∷ s) [] = refl
same_text_comm (a ∷ s) (b ∷ t) = ground (arith, same_text_comm s t)
