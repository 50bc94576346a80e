-- ===== src/Automaton/Compare.antt =====
-- The table of src/parser/parser_utils.c against a comparison of two texts.
use pdc_20221c.Prelude.{
  ℕ, ◌+◌, ◌<◌, ◌≡◌, refl, sym, ap, ◌∙◌, Option, some, Bool, true, false, ◌&&◌, List, [], ◌∷◌, ◌++◌,
  ◌==◌, ltb, if◌then◌else◌, ◌>>=◌, length, length-append, arith, Bool-cases, inl, inr,
}
use mathlib.Core.List.{append_assoc}
use pdc_20221c.Automaton.{
  TableParser, parser_feed, parser_no_classes, string_cmp_mayeq, string_cmp_eq, string_cmp_neq,
  parser_utils_strcmpi, parser_init, no_event,
}
use pdc_20221c.Automaton.Steps.{
  same_letter, Stepped, Comparing, Comparing-next, step_inside, step_outside,
}

-- What a comparison of a text with bytes has found after the last of them, if there are any.
unfoldable pub verdict : List ℕ → List ℕ → ℕ → ℕ
unfolding same_letter
verdict s [] before = before
verdict [] (c ∷ cs) before = string_cmp_neq
verdict (x ∷ []) (c ∷ cs) before =
    let rest = verdict [] cs string_cmp_eq in if same_letter x c then rest else string_cmp_neq
verdict (x ∷ y ∷ s) (c ∷ cs) before =
    let rest = verdict (y ∷ s) cs string_cmp_mayeq in
    if same_letter x c then rest else string_cmp_neq

unfoldable pub all_below : ℕ → List ℕ → Bool
all_below m [] = true
all_below m (c ∷ cs) = ltb c m && all_below m cs

unfoldable pub feed_all : TableParser → List ℕ → Option TableParser
unfolding parser_feed
feed_all p [] = some p
feed_all p (c ∷ cs) = parser_feed p c >>= λ p'. feed_all p' cs

-- What feeding bytes leaves: the last event has this type.
record Ends (p : TableParser) (cs : List ℕ) (type : ℕ) : Type 0 where
  last : TableParser
  fed : feed_all p cs ≡ some last
  found : last.e1.type ≡ type

Ends-step :
    (p : TableParser) (c : ℕ) (cs : List ℕ) (state type type' : ℕ)
    (st : Stepped (parser_feed p c) p state type)
    → Ends st.next cs type'
    → Ends p (c ∷ cs) type'
unfolding feed_all
Ends-step p c cs state type type' st e = record {
  last = e.last;
  fed = rw st.ran e.fed;
  found = e.found;
}

feed_none : (p : TableParser) (s : List ℕ) → Ends p [] (verdict s [] p.e1.type)
unfolding feed_all verdict
feed_none p s = record { last = p; fed = refl; found = refl }

same_number : (n a b : ℕ) → (if n == n then a else b) ≡ a
same_number n a b = ground arith

verdict_over : (cs : List ℕ) → verdict [] cs string_cmp_neq ≡ string_cmp_neq
unfolding verdict
verdict_over [] = refl
verdict_over (c ∷ cs) = refl

feed-outside :
    (cs : List ℕ) (p : TableParser) (s : List ℕ) (j : ℕ)
    → Comparing p s
    → p.state ≡ length s + j
    → j < 2
    → all_below 255 cs ≡ true
    → Ends p cs (verdict [] cs p.e1.type)
unfolding feed_all verdict all_below
feed-outside [] p s j v at lt small = record { last = p; fed = refl; found = refl }
feed-outside (c ∷ cs) p s j v at lt small =
    let st = step_outside p s j c v at lt (ground arith) in
    Ends-step p c cs _ _ _ st (
      rw (st.type_eq, verdict_over cs) at
        (feed-outside cs st.next s 1 (Comparing-next p s _ _ _ st v) st.state_eq (omega arith)
          (ground arith)))

Ends-as : (p : TableParser) (cs : List ℕ) (t t' : ℕ) → t ≡ t' → Ends p cs t → Ends p cs t'
Ends-as p cs t t' e r = rw (← e) r

verdict_stop :
    (x c : ℕ) (s cs : List ℕ) (t : ℕ)
    → same_letter x c ≡ false
    → verdict (x ∷ s) (c ∷ cs) t ≡ string_cmp_neq
unfolding verdict
verdict_stop x c [] cs t e = rw e refl
verdict_stop x c (y ∷ s) cs t e = rw e refl

verdict_last :
    (x c : ℕ) (cs : List ℕ) (t : ℕ)
    → same_letter x c ≡ true
    → verdict (x ∷ []) (c ∷ cs) t ≡ verdict [] cs string_cmp_eq
unfolding verdict
verdict_last x c cs t e = rw e refl

verdict_more :
    (x y c : ℕ) (s cs : List ℕ) (t : ℕ)
    → same_letter x c ≡ true
    → verdict (x ∷ y ∷ s) (c ∷ cs) t ≡ verdict (y ∷ s) cs string_cmp_mayeq
unfolding verdict
verdict_more x y c s cs t e = rw e refl

-- After a character that differs.
feed-different :
    (p : TableParser) (s before after cs : List ℕ) (x c t : ℕ)
    → Comparing p s
    → s ≡ before ++ (x ∷ after)
    → p.state ≡ length before
    → x < 128
    → c < 255
    → all_below 255 cs ≡ true
    → same_letter x c ≡ false
    → Ends p (c ∷ cs) (verdict (x ∷ after) (c ∷ cs) t)
feed-different p s before after cs x c t v split at lt small others e =
    let st = step_inside p s before after x c v split at lt small in
    let state : st.next.state ≡ length s + 1 = st.state_eq ∙ rw e refl in
    let type : st.next.e1.type ≡ string_cmp_neq = st.type_eq ∙ rw e refl in
    Ends-as p (c ∷ cs) _ _
      (ap (λ u. verdict [] cs u) type ∙ verdict_over cs ∙ sym (verdict_stop x c after cs t e))
      (Ends-step p c cs _ _ _ st
        (feed-outside cs st.next s 1 (Comparing-next p s _ _ _ st v) state (omega arith) others))

feed-inside :
    (cs after : List ℕ) (p : TableParser) (s before : List ℕ)
    → Comparing p s
    → s ≡ before ++ after
    → p.state ≡ length before
    → all_below 128 after ≡ true
    → all_below 255 cs ≡ true
    → Ends p cs (verdict after cs p.e1.type)
unfolding all_below
feed-inside [] after p s before v split at low small = feed_none p after
feed-inside (c ∷ cs) [] p s before v split at low small =
    feed-outside (c ∷ cs) p s 0 v (at ∙ omega (arith, ap length split, length-append before []))
      (omega arith) small
feed-inside (c ∷ cs) (x ∷ []) p s before v split at low small =
    let x_low : x < 128 = ground arith in
    let c_small : c < 255 = ground arith in
    let others : all_below 255 cs ≡ true = ground arith in
    elim (Bool-cases (same_letter x c)) [
      | inr other ↦
          feed-different p s before [] cs x c p.e1.type v split at x_low c_small others other
      | inl same ↦
          let st = step_inside p s before [] x c v split at x_low c_small in
          let long : length before + 1 ≡ length s =
            omega (arith, ap length split, length-append before (x ∷ [])) in
          let state : st.next.state ≡ length s + 0 = st.state_eq ∙ rw same (omega (arith, long)) in
          let type : st.next.e1.type ≡ string_cmp_eq =
            st.type_eq ∙ rw same (rw long (same_number (length s) _ _)) in
          Ends-as p (c ∷ cs) _ _
            (ap (λ u. verdict [] cs u) type ∙ sym (verdict_last x c cs p.e1.type same))
            (Ends-step p c cs _ _ _ st (
              feed-outside cs st.next s 0 (Comparing-next p s _ _ _ st v) state (omega arith)
                others))
    ]
feed-inside (c ∷ cs) (x ∷ y ∷ after) p s before v split at low small =
    let x_low : x < 128 = ground arith in
    let c_small : c < 255 = ground arith in
    let others : all_below 255 cs ≡ true = ground arith in
    let lower : all_below 128 (y ∷ after) ≡ true = ground arith in
    elim (Bool-cases (same_letter x c)) [
      | inr other ↦
          feed-different p s before (y ∷ after) cs x c p.e1.type v split at x_low c_small others
            other
      | inl same ↦
          let st = step_inside p s before (y ∷ after) x c v split at x_low c_small in
          let long : length s ≡ length before + (2 + length after) =
            ap length split ∙ length-append before (x ∷ y ∷ after) ∙ omega arith in
          let not_last : (length before + 1 == length s) ≡ false = ground (arith, long) in
          let state : st.next.state ≡ length (before ++ (x ∷ [])) =
            st.state_eq ∙ rw same (omega (arith, length-append before (x ∷ []))) in
          let type : st.next.e1.type ≡ string_cmp_mayeq = st.type_eq ∙ rw same (rw not_last refl) in
          Ends-as p (c ∷ cs) _ _
            (ap (λ u. verdict (y ∷ after) cs u) type
              ∙ sym (verdict_more x y c after cs p.e1.type same))
            (Ends-step p c cs _ _ _ st (
              feed-inside cs (y ∷ after) st.next s (before ++ (x ∷ []))
                (Comparing-next p s _ _ _ st v)
                (split ∙ sym (append_assoc before (x ∷ []) (y ∷ after))) state lower others))
    ]

-- A parser that compares with a text of ASCII characters, made with memory and fed with any bytes
-- below 255: nothing fails, and the type of the last event is what a comparison of the two, ignoring
-- the case of letters, says: equal so far, equal, or different.
pub strcmpi_lem :
    (s cs : List ℕ)
    → all_below 128 s ≡ true
    → all_below 255 cs ≡ true
    → (p : TableParser) × ((last : TableParser) × (parser_init parser_no_classes
            (parser_utils_strcmpi s true)
            true
          ≡ some p)
        × (feed_all p cs ≡ some last)
        × (last.e1.type ≡ verdict s cs string_cmp_mayeq))
unfolding parser_init parser_utils_strcmpi
strcmpi_lem s cs low small =
    let p : TableParser = record {
      classes = parser_no_classes;
      def = parser_utils_strcmpi s true;
      state = 0;
      e1 = no_event;
      e2 = no_event;
    } in
    let r =
      feed-inside cs s p s [] (record { classes_eq = refl; def_eq = refl }) refl refl low small in
    (p, (r.last, refl, r.fed, r.found))
