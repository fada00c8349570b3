-- ===== src/Parsers/Disposition/Tests.antt =====
-- Runs of `content_disposition_filename` of include/avhttp/detail/parsers.hpp, and the theorems at
-- them.
use avhttp.Base.{true, false, not, [], ◌∷◌, ◌++◌, ◌≡◌, refl, codes, text_eq, All}
use avhttp.Escape.{is_char, is_tspecial}
use avhttp.Parsers.Disposition.{is_empty, content_disposition_filename}
use avhttp.Parsers.Disposition.Filename.{
  IsKeyChar, IsValueChar, filename_item, content_disposition_filename-filename_item, filename_lost,
}

run_attachment :
    content_disposition_filename (codes "attachment; filename=\"a b.zip\"") []
    ≡ (true, codes "a b.zip")
unfolding content_disposition_filename text_eq is_char is_tspecial
run_attachment = refl

-- The text of the comment above the function.
run_comment :
    content_disposition_filename (codes "attachment=other; filename=\"file.zip\";") [] ≡ (false, [])
unfolding content_disposition_filename text_eq is_char is_tspecial
run_comment = refl

key-IsKeyChar : All IsKeyChar (codes "att")
unfolding is_char is_tspecial
key-IsKeyChar = (ok, (ok, (ok, tt)))
  where
    ok : (◌≡◌ true true) × (◌≡◌ false false) × (◌≡◌ false false)
    ok = (refl, refl, refl)

value-IsValueChar : All IsValueChar (codes "a z")
unfolding is_char
value-IsValueChar = (ok, (ok, (ok, tt)))
  where
    ok : (◌≡◌ true true) × (◌≡◌ false false)
    ok = (refl, refl)

content_disposition_filename-filename_item_example :
    content_disposition_filename (codes "att" ++ (b';' ∷ filename_item (codes "a z"))) []
    ≡ (true, codes "a z")
content_disposition_filename-filename_item_example =
    content_disposition_filename-filename_item b'a' b'a' (codes "tt") (codes " z") [] key-IsKeyChar
      value-IsValueChar

filename_lost_example :
    content_disposition_filename
      (codes "att" ++ (b'=' ∷ (codes "a z" ++ (b';' ∷ filename_item (codes "a z")))))
      []
    ≡ (not (is_empty []), [])
filename_lost_example =
    filename_lost b'a' b'a' b'a' (codes "tt") (codes " z") (codes " z") [] key-IsKeyChar
      value-IsValueChar value-IsValueChar (λ e. cc)
