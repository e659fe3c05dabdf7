-- ===== src/Ranges/Tests.antt =====
-- Ranges on small texts.
use opencaw.Prelude.{◌≡◌, refl, arith, not, Option, none, some, false}
use opencaw.Core.{Text}
use opencaw.Text.{
  ascii, lines, join, split_byte, split_once, eq_ignore_ascii_case, eq_text, remove_byte,
  strip_prefix, starts_with,
}
use opencaw.Text.Format.{trim, trim_start}
use opencaw.Ranges.{Bpe, tokens_of, parse, to_locator_string, apply}
use opencaw.Ranges.RoundTrip.{parse-to_locator_string}
use opencaw.Ranges.Apply.{is_some, runs_backwards, apply_total}

-- Each byte is a token.
abbrev byte_tokens : Option Bpe
byte_tokens = some (record { encode = λ t. t; decode = λ t. some t; checks_overflow = false })

abbrev document : Text
document = ascii "# a\nx\n## b\ny\n\n## c\nz"

second_section : apply byte_tokens (parse (ascii "#a/b")) document ≡ some (ascii "## b\ny\n")
unfolding apply parse split_byte trim trim_start lines join eq_text eq_ignore_ascii_case
    strip_prefix
second_section = refl

some_lines : apply byte_tokens (parse (ascii " L2-L4")) document ≡ some (ascii "x\n## b\ny")
unfolding apply parse trim lines join eq_ignore_ascii_case split_once remove_byte strip_prefix
    starts_with
some_lines = refl

backwards_panics : apply byte_tokens (parse (ascii "6-2")) document ≡ none
unfolding apply parse trim lines eq_ignore_ascii_case split_once strip_prefix starts_with
backwards_panics = refl

some_tokens : apply byte_tokens (tokens_of 2 3) document ≡ some (ascii "a\nx")
unfolding apply
some_tokens = refl

-- The end of the range wraps around to 0.
wrapped_panics : apply byte_tokens (tokens_of 1 18446744073709551615) document ≡ none
unfolding apply
wrapped_panics = refl

apply_total_example :
    is_some (apply byte_tokens (tokens_of 1 18446744073709551615) document)
    ≡ not (runs_backwards byte_tokens (tokens_of 1 18446744073709551615) document)
apply_total_example =
    apply_total byte_tokens (tokens_of 1 18446744073709551615) document (omega arith, omega arith)

parse-to_locator_string_example :
    parse (to_locator_string (tokens_of 100 18446744073709551615))
    ≡ tokens_of 100 18446744073709551615
parse-to_locator_string_example =
    parse-to_locator_string (tokens_of 100 18446744073709551615) (omega arith, omega arith)
