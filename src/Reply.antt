-- ===== src/Reply.antt =====
-- extension/src/reply.ts: the UTF-8 size of a string of UTF-16 code units.
pub mod Encoding
pub mod Concatenation
mod Tests
use firefox_ctl.Base.{Bool, Text, [], if◌then◌else◌, leb, ltb, ℕ, ◌&&◌, ◌+◌, ◌∷◌}

abbrev pub is_low_surrogate : ℕ → Bool
is_low_surrogate u = leb 0xdc00 u && leb u 0xdfff

abbrev pub is_high_surrogate : ℕ → Bool
is_high_surrogate u = leb 0xd800 u && leb u 0xdbff

-- Past the end `charCodeAt` is NaN, which is no low surrogate.
unfoldable pub utf8_length : Text → ℕ
utf8_length [] = 0
utf8_length (u ∷ []) = if ltb u 0x80 then 1 else if ltb u 0x800 then 2 else 3
utf8_length (u ∷ v ∷ us) =
    let rest = utf8_length (v ∷ us) in
    let after_pair = utf8_length us in
    if ltb u 0x80
    then 1 + rest
    else if ltb u 0x800
    then 2 + rest
    else if is_high_surrogate u && is_low_surrogate v
    then 4 + after_pair
    else 3 + rest
