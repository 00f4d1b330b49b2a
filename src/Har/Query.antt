-- ===== src/Har/Query.antt =====
-- The query of a url, extension/src/har.ts.
use firefox_ctl.Base.{
  List, Option, Text, [], if◌then◌else◌, map, nat_beq, nat_eq, none, or_else, some, text_eq, ◌==◌,
  ◌∷◌,
}
use firefox_ctl.Base.Texts.{cut_at, split}
use firefox_ctl.Har.{HarParam}

-- The url up to its fragment.
abbrev pub bare : Text → Text
unfolding cut_at
bare url = elim (cut_at b'#' url) [ none ↦ url | some p ↦ p.0 ]

abbrev pub spaces_for_plus : Text → Text
spaces_for_plus t = map (λ c. if nat_beq c b'+' then b' ' else c) t

module _ (decode_uri : Text → Option Text) where
  -- What `decodeURIComponent` refuses stays as it is.
  unfoldable pub decode_component : Text → Text
  decode_component raw = or_else (decode_uri (spaces_for_plus raw)) raw

  unfoldable pub param_of : Text → HarParam
  unfolding decode_component cut_at
  param_of part = elim (cut_at b'=' part) [
    | none ↦ record { name = decode_component part; value = decode_component [] }
    | some p ↦ record { name = decode_component p.0; value = decode_component p.1 }
  ]

  unfoldable pub params_of : List Text → List HarParam
  unfolding param_of
  params_of [] = []
  params_of (part ∷ parts) =
      let rest = params_of parts in if part == [] then rest else param_of part ∷ rest

  unfoldable pub query_string : Text → List HarParam
  unfolding params_of split cut_at
  query_string url = elim (cut_at b'?' (bare url)) [
    | none ↦ []
    | some p ↦ params_of (split b'&' p.1)
  ]
