-- ===== src/Automaton/Steps.antt =====
-- A byte for the parser of src/parser/parser_utils.c, in each state of its table.
use pdc_20221c.Prelude.{
  ℕ, zero, suc, ◌+◌, ◌<◌, ◌≡◌, refl, ap, ◌∙◌, Option, some, Bool, true, false, ◌||◌, List, [], ◌∷◌,
  ◌++◌, ◌==◌, if◌then◌else◌, length, replicate, get_elem?, arith, Bool-cases, inl, inr,
}
use pdc_20221c.Automaton.{
  TableParser, ParserEvent, ParserDefinition, Transition, parser_feed, feed_loop, matched,
  take_transition, parser_no_classes, string_cmp_mayeq, string_cmp_eq, string_cmp_neq, tolower,
  toupper, char_when, compare_row, compare_rows, to_neq, parser_utils_strcmpi, eq, may_eq, neq,
}

-- The same character, ignoring the case of letters.
unfoldable pub same_letter : ℕ → ℕ → Bool
unfolding tolower
same_letter x c = tolower x == tolower c

matched_letter :
    (x c : ℕ)
    → x < 128
    → (matched (char_when tolower x) 0 c || matched (char_when toupper x) 0 c) ≡ same_letter x c
unfolding matched char_when tolower toupper same_letter
matched_letter x c lt = ground arith

replicate_at : (n i : ℕ) → i < n → get_elem? {A = ℕ} (replicate n 0) i ≡ some 0
replicate_at zero i lt = absurd (omega arith)
replicate_at (suc n) zero lt = refl
replicate_at (suc n) (suc i) lt = replicate_at n i (omega arith)

class_at : (c : ℕ) → c < 255 → get_elem? parser_no_classes c ≡ some 0
unfolding parser_no_classes
class_at c lt = replicate_at 255 c lt

-- The table behind a part of the text.
row_at :
    (n i : ℕ) (before : List ℕ) (x : ℕ) (after : List ℕ) (tail : List (List Transition))
    → get_elem? (compare_rows n i (before ++ (x ∷ after)) ++ tail) (length before)
      ≡ some (compare_row n (i + length before) x)
unfolding compare_rows
row_at n i [] x after tail = ap (λ k. some (compare_row n k x)) (omega arith)
row_at n i (y ∷ before) x after tail =
    row_at n (i + 1) before x after tail ∙ ap (λ k. some (compare_row n k x)) (omega arith)

act_type :
    (b : Bool) (e : ParserEvent) (c : ℕ)
    → ((if b then eq else may_eq) e c).type ≡ (if b then string_cmp_eq else string_cmp_mayeq)
act_type true e c = refl
act_type false e c = refl

-- A step of a parser: the state and the event after it, over the same table.
pub record Stepped (r : Option TableParser) (q : TableParser) (state type : ℕ) : Type 0 where
  pub next : TableParser
  pub ran : r ≡ some next
  pub state_eq : next.state ≡ state
  pub type_eq : next.e1.type ≡ type
  pub classes_eq : next.classes ≡ q.classes
  pub def_eq : next.def ≡ q.def

feed_row :
    (q : TableParser) (n i x c : ℕ)
    → x < 128
    → Stepped
        (feed_loop (compare_row n i x) q 0 c)
        q
        (if same_letter x c then (if i + 1 == n then n else i + 1) else n + 1)
        (if same_letter x c
          then (if i + 1 == n then string_cmp_eq else string_cmp_mayeq)
          else string_cmp_neq)
unfolding feed_loop compare_row take_transition
feed_row q n i x c lt =
    let letter = matched_letter x c lt in
    elim (Bool-cases (matched (char_when tolower x) 0 c)) [
      | inl low ↦
          let same : same_letter x c ≡ true = ground (arith, letter) in
          record {
            next = record q {
              e1 = (if i + 1 == n then eq else may_eq) q.e1 c;
              state = if i + 1 == n then n else i + 1;
            };
            ran = rw low refl;
            state_eq = rw same refl;
            type_eq = rw same (act_type (i + 1 == n) q.e1 c);
            classes_eq = refl;
            def_eq = refl;
          }
      | inr not_low ↦ elim (Bool-cases (matched (char_when toupper x) 0 c)) [
        | inl up ↦
            let same : same_letter x c ≡ true = ground (arith, letter) in
            record {
              next = record q {
                e1 = (if i + 1 == n then eq else may_eq) q.e1 c;
                state = if i + 1 == n then n else i + 1;
              };
              ran = rw (not_low, up) refl;
              state_eq = rw same refl;
              type_eq = rw same (act_type (i + 1 == n) q.e1 c);
              classes_eq = refl;
              def_eq = refl;
            }
        | inr not_up ↦
            let other : same_letter x c ≡ false = ground (arith, letter) in
            record {
              next = record q { e1 = neq q.e1 c; state = n + 1 };
              ran = rw (not_low, not_up, matched) refl;
              state_eq = rw other refl;
              type_eq = rw other refl;
              classes_eq = refl;
              def_eq = refl;
            }
      ]
    ]

-- The table behind the text.
fixed_at :
    (n i j : ℕ) (s : List ℕ) (tail : List (List Transition))
    → get_elem? (compare_rows n i s ++ tail) (length s + j) ≡ get_elem? tail j
unfolding compare_rows
fixed_at n i j [] tail = ap (λ k. get_elem? tail k) (omega arith)
fixed_at n i j (x ∷ s) tail =
    let counted : suc (length s) + j ≡ suc (length s + j) = omega arith in
    ap (λ k. get_elem? (compare_rows n i (x ∷ s) ++ tail) k) counted ∙ fixed_at n (i + 1) j s tail

-- The parser compares with this text.
pub record Comparing (p : TableParser) (s : List ℕ) : Type 0 where
  pub classes_eq : p.classes ≡ parser_no_classes
  pub def_eq : p.def ≡ parser_utils_strcmpi s true

pub Comparing-next :
    (p : TableParser) (s : List ℕ) (r : Option TableParser) (state type : ℕ)
    (st : Stepped r p state type)
    → Comparing p s
    → Comparing st.next s
Comparing-next p s r state type st v = record {
  classes_eq = st.classes_eq ∙ v.classes_eq;
  def_eq = st.def_eq ∙ v.def_eq;
}

abbrev cleared : TableParser → TableParser
cleared p = record p { e1 = record p.e1 { next = false }; e2 = record p.e2 { next = false } }

feed_at :
    (p : TableParser) (c : ℕ) (ts : List Transition)
    → get_elem? p.classes c ≡ some 0
    → get_elem? p.def.states p.state ≡ some ts
    → parser_feed p c ≡ feed_loop ts (cleared p) 0 c
unfolding parser_feed
feed_at p c ts class row = rw (class, row) refl

states_eq :
    (p : TableParser) (s : List ℕ) (k : ℕ)
    → Comparing p s
    → p.state ≡ k
    → get_elem? p.def.states p.state
      ≡ get_elem?
          (compare_rows (length s) 0 s
            ++ ((to_neq (length s) ∷ []) ∷ (to_neq (length s) ∷ []) ∷ []))
          k
unfolding parser_utils_strcmpi
states_eq p s k v at =
    ap (λ (d : ParserDefinition). get_elem? d.states p.state) v.def_eq
    ∙ ap
        (λ j.
          get_elem?
            (compare_rows (length s) 0 s
              ++ ((to_neq (length s) ∷ []) ∷ (to_neq (length s) ∷ []) ∷ []))
            j)
        at

retarget :
    (r r' : Option TableParser) (p : TableParser) (state state' type type' : ℕ)
    → r' ≡ r
    → state ≡ state'
    → type ≡ type'
    → Stepped r (cleared p) state type
    → Stepped r' p state' type'
retarget r r' p state state' type type' er es et st = record {
  next = st.next;
  ran = er ∙ st.ran;
  state_eq = st.state_eq ∙ es;
  type_eq = st.type_eq ∙ et;
  classes_eq = st.classes_eq;
  def_eq = st.def_eq;
}

-- A byte at a character of the text.
pub step_inside :
    (p : TableParser) (s before after : List ℕ) (x c : ℕ)
    → Comparing p s
    → s ≡ before ++ (x ∷ after)
    → p.state ≡ length before
    → x < 128
    → c < 255
    → Stepped (parser_feed p c) p (if same_letter x c then length before + 1 else length s + 1) (
        if same_letter x c
        then (if length before + 1 == length s then string_cmp_eq else string_cmp_mayeq)
        else string_cmp_neq)
step_inside p s before after x c v split at lt small =
    let n = length s in
    let i = length before in
    let tail = (to_neq n ∷ []) ∷ (to_neq n ∷ []) ∷ [] in
    let dest : (if i + 1 == n then n else i + 1) ≡ i + 1 = ground arith in
    let row =
      states_eq p s i v at
      ∙ ap (λ t. get_elem? (compare_rows n 0 t ++ tail) i) split
      ∙ row_at n 0 before x after tail
      ∙ ap (λ k. some (compare_row n k x)) (omega arith) in
    retarget _ _ p _ _ _ _
      (feed_at p c (compare_row n i x) (ap (λ l. get_elem? l c) v.classes_eq ∙ class_at c small)
        row)
      (ap (λ d. if same_letter x c then d else n + 1) dest) refl (feed_row (cleared p) n i x c lt)

-- A byte behind the text, or after a difference.
pub step_outside :
    (p : TableParser) (s : List ℕ) (j c : ℕ)
    → Comparing p s
    → p.state ≡ length s + j
    → j < 2
    → c < 255
    → Stepped (parser_feed p c) p (length s + 1) string_cmp_neq
unfolding feed_loop matched take_transition
step_outside p s j c v at lt small =
    let n = length s in
    let tail = (to_neq n ∷ []) ∷ (to_neq n ∷ []) ∷ [] in
    let row = states_eq p s (n + j) v at ∙ fixed_at n 0 j s tail ∙ fixed_row n j lt in
    retarget _ _ p _ _ _ _
      (feed_at p c (to_neq n ∷ []) (ap (λ l. get_elem? l c) v.classes_eq ∙ class_at c small) row)
      refl refl
      (record {
        next = record (cleared p) { e1 = neq (cleared p).e1 c; state = n + 1 };
        ran = refl;
        state_eq = refl;
        type_eq = refl;
        classes_eq = refl;
        def_eq = refl;
      })
  where
    fixed_row :
        (n j : ℕ)
        → j < 2
        → get_elem? ((to_neq n ∷ []) ∷ (to_neq n ∷ []) ∷ []) j ≡ some (to_neq n ∷ [])
    fixed_row n zero lt = refl
    fixed_row n (suc zero) lt = refl
    fixed_row n (suc (suc j)) lt = absurd (omega arith)
