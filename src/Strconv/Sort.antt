-- ===== src/Strconv/Sort.antt =====
-- sort.Strings, for texts as lists of bytes
use go_imap.Prelude.{Bool, true, false, ◌&&◌, ◌||◌, List, [], ◌∷◌, ltb, ◌==◌, if◌then◌else◌}
use go_imap.Strconv.{Bytes}

-- The order of Go's strings
unfoldable pub text_less : Bytes → Bytes → Bool
text_less [] [] = false
text_less [] (y ∷ t) = true
text_less (x ∷ s) [] = false
text_less (x ∷ s) (y ∷ t) = ltb x y || x == y && text_less s t

unfoldable pub insert_text : Bytes → List Bytes → List Bytes
unfolding text_less
insert_text s [] = s ∷ []
insert_text s (t ∷ l) = let rest = insert_text s l in if text_less t s then t ∷ rest else s ∷ t ∷ l

unfoldable pub sort_texts : List Bytes → List Bytes
unfolding insert_text
sort_texts [] = []
sort_texts (s ∷ l) = insert_text s (sort_texts l)
