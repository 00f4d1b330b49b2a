-- ===== src/Reply/Tests.antt =====
-- Sizes of concrete texts, and the theorems of extension/src/reply.ts at them.
use firefox_ctl.Base.{Text, [], arith, length, refl, ◌∷◌, ◌≡◌}
use firefox_ctl.Reply.{utf8_length}
use firefox_ctl.Reply.Encoding.{encode, scalars, utf8_length-encode}

-- "a", an accented e, a pair of surrogates, a lone high surrogate.
abbrev sample : Text
sample = 0x61 ∷ 0xe9 ∷ 0xd83d ∷ 0xde00 ∷ 0xd800 ∷ []

sample_size : utf8_length sample ≡ 10
unfolding utf8_length
sample_size = refl

utf8_length-encode_example : utf8_length sample ≡ length (encode (scalars sample))
utf8_length-encode_example = utf8_length-encode sample (omega arith)
