-- ===== src/Response/Tests.antt =====
-- Responses of a model.
use opencaw.Prelude.{◌≡◌, refl, some, List, [], ◌∷◌, ◌++◌}
use opencaw.Text.{ascii, contains, find}
use opencaw.Text.Format.{trim_end}
use opencaw.Response.{truncate_at_chat_boundary, strip_fake_recall_blocks, extract_json_object}
use opencaw.Response.Json.{
  Body, done, other, quoted, nested, plain, escape, print_object, extract_json_object-print_object,
}
use opencaw.Response.Blocks.{
  Block, with_blocks, without_blocks, strip_fake_recall_blocks-with_blocks,
}

boundary_cut : truncate_at_chat_boundary (ascii "yes <|im_end|>") ≡ ascii "yes"
unfolding truncate_at_chat_boundary find trim_end
boundary_cut = refl

abbrev body : Body
body =
    quoted (plain 97 refl refl ∷ escape 34 ∷ plain 125 refl refl ∷ [])
      (other 58 refl refl refl (nested done done))

object_printed : print_object body ≡ ascii "{\"a\\\"}\":{}}"
object_printed = refl

object_found : extract_json_object (ascii "it is } {\"a\\\"}\":{}} so") ≡ some (print_object body)
unfolding extract_json_object
object_found = refl

extract_json_object-print_object_example :
    extract_json_object (ascii "so } " ++ (print_object body ++ ascii " }"))
    ≡ some (print_object body)
extract_json_object-print_object_example =
    extract_json_object-print_object (ascii "so } ") body (ascii " }")
      ((refl, refl), ((refl, refl), ((refl, refl), ((refl, refl), ((refl, refl), tt)))))

abbrev blocks : List Block
blocks =
    record { body = ascii "a.md]\nx\n"; after = ascii " and [" }
    ∷ record { body = ascii "b.md]"; after = ascii " end" }
    ∷ []

strip_fake_recall_blocks-with_blocks_example :
    strip_fake_recall_blocks (with_blocks (ascii "see ") blocks)
    ≡ without_blocks (ascii "see ") blocks
unfolding contains
strip_fake_recall_blocks-with_blocks_example =
    strip_fake_recall_blocks-with_blocks (ascii "see ") blocks refl
      ((refl, refl), ((refl, refl), tt))
