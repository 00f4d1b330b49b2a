-- ===== src/Reply/Concatenation.antt =====
-- The size of a concatenation, as the size limits of the bodies add sizes up.
use firefox_ctl.Base.{Bool, Text, [], false, ◌∷◌}
use firefox_ctl.Reply.{is_high_surrogate, is_low_surrogate}

-- A pair of surrogates is split between the texts.
abbrev pub ends_high : Text → Bool
ends_high [] = false
ends_high (u ∷ []) = is_high_surrogate u
ends_high (u ∷ v ∷ us) = ends_high (v ∷ us)

abbrev pub starts_low : Text → Bool
starts_low [] = false
starts_low (u ∷ us) = is_low_surrogate u
