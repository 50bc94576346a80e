-- ===== src/Tests/Texts.antt =====
-- The parser of src/parser/parser_utils.c that compares with a text.
use pdc_20221c.Prelude.{◌≡◌, refl, some, true, [], ◌∷◌, none}
use pdc_20221c.Automaton.{
  TableParser, parser_init, parser_no_classes, parser_utils_strcmpi, parser_feed, string_cmp_mayeq,
}
use pdc_20221c.Automaton.Compare.{verdict, all_below, feed_all, strcmpi_lem}

-- "Ok" and "oK"
strcmpi_example :
    (p : TableParser) × ((last : TableParser) × (parser_init parser_no_classes
          (parser_utils_strcmpi (79 ∷ 107 ∷ []) true)
          true
        ≡ some p)
      × (feed_all p (111 ∷ 75 ∷ []) ≡ some last)
      × (last.e1.type ≡ verdict (79 ∷ 107 ∷ []) (111 ∷ 75 ∷ []) string_cmp_mayeq))
unfolding all_below
strcmpi_example = strcmpi_lem (79 ∷ 107 ∷ []) (111 ∷ 75 ∷ []) refl refl

-- The byte 255 has no class.
last_byte : (p : TableParser) → p.classes ≡ parser_no_classes → parser_feed p 255 ≡ none
unfolding parser_feed parser_no_classes
last_byte p e = rw e refl

equal_texts : verdict (79 ∷ 107 ∷ []) (111 ∷ 75 ∷ []) string_cmp_mayeq ≡ 1
unfolding verdict
equal_texts = refl
