-- ===== src/Names/Samples.antt =====
-- Tests of the name functions, and their theorems at concrete names.
use cubepilot.Prelude.{◌≡◌, refl, utf8, replicate}
use cubepilot.Names.{Host, is_name_char, sanitize, resource_name, generated_name_within, hex}
use cubepilot.Names.Segments.{IsSegment, sanitize-IsSegment}

-- A host whose digest is thirty-two zero bytes.
abbrev pub plain : Host
plain = record { to_lower = λ s. s; sha256 = λ s. replicate 32 0; length-sha256 = λ s. refl }

sanitize_runs : sanitize plain (utf8 "-a..b_c-") ≡ utf8 "a-b-c"
unfolding sanitize is_name_char
sanitize_runs = refl

sanitize_blank : sanitize plain (utf8 "--") ≡ utf8 "user"
unfolding sanitize is_name_char
sanitize_blank = refl

sanitize-IsSegment_example : IsSegment (sanitize plain (utf8 "zhang.wei-"))
sanitize-IsSegment_example = sanitize-IsSegment plain (utf8 "zhang.wei-")

generated_short :
    generated_name_within plain (utf8 "data") (utf8 "abcdefgh.ijk") 15 ≡ utf8 "data-0000000000"
unfolding generated_name_within resource_name sanitize hex is_name_char
generated_short = refl
