-- ===== src/Har/Sizes.antt =====
-- The sizes and the timings of an entry, extension/src/har.ts. -1 is unknown.
use firefox_ctl.Base.{
  Bool, List, Option, Text, [], any, false, if◌then◌else◌, is_some, leb, length, ltb, map, nat_beq,
  nat_eq, none, not, or_else, some, text_eq, txt, ℕ, ◌&&◌, ◌*◌, ◌+◌, ◌-◌, ◌==◌, ◌||◌, ◌∷◌,
}
use firefox_ctl.Base.Int.{negsuc, pos, ℤ}
use firefox_ctl.Base.Texts.{is_digit, trim}
use firefox_ctl.Network.{HttpHeader}
use firefox_ctl.HarRecorder.Body.{PartShape, RequestBodyShape}
use firefox_ctl.HarRecorder.Hops.{HopRecord}
use firefox_ctl.Har.{HarTimings}
use firefox_ctl.Har.Mime.{header_values}

abbrev pub unknown : ℤ
unknown = negsuc 0

-- The number that digits write after a number.
unfoldable pub digits_value : ℕ → Text → ℕ
digits_value n [] = n
digits_value n (c ∷ cs) = digits_value (10 * n + (c - b'0')) cs

abbrev pub max_safe_integer : ℕ
max_safe_integer = 9007199254740991

-- The number of `/^[0-9]+$/`, if it is a safe integer: a larger one is read as a double that is
-- larger too.
unfoldable pub safe_digits : Text → Option ℕ
unfolding digits_value
safe_digits t =
    if not (t == [])
      && not (any (λ c. not (is_digit c)) t)
      && leb (digits_value 0 t) max_safe_integer
    then some (digits_value 0 t)
    else none

-- The element of a `Set` of size 1.
unfoldable pub only_value : List Text → Option Text
only_value [] = none
only_value (v ∷ vs) = if any (λ w. not (w == v)) vs then none else some v

-- Whether the length of a part of a raw body is known.
abbrev pub part_length : PartShape → Option ℕ
part_length part =
    if is_some part.file || or_else part.truncated false then none else part.byte_length

unfoldable pub raw_total : List PartShape → ℕ → ℤ
raw_total [] sum = pos sum
raw_total (part ∷ parts) sum = elim (part_length part) [
  | none ↦ unknown
  | some n ↦ raw_total parts (sum + n)
]

unfoldable pub raw_length : RequestBodyShape → ℤ
unfolding raw_total
raw_length body =
    if is_some body.error || body.has_form_data then unknown else raw_total (or_else body.raw []) 0

-- `Math.max(0, a - b)`
unfoldable pub timings : HopRecord → ℕ × HarTimings
timings hop =
    let send = or_else hop.send_headers hop.start in
    let received = or_else hop.headers_received send in
    let end = or_else hop.end received in
    (
      (send - hop.start) + (received - send) + (end - received),
      record { blocked = send - hop.start; wait = received - send; receive = end - received },
    )

module _ (to_lower to_upper : Text → Text) where
  unfoldable pub content_length : Option (List HttpHeader) → Option ℕ
  unfolding header_values only_value trim safe_digits
  content_length headers =
      elim (only_value (map trim (header_values to_lower headers (txt "content-length")))) [
        | none ↦ none
        | some value ↦ safe_digits value
      ]

  unfoldable pub request_body_size : Option RequestBodyShape → Option (List HttpHeader) → Bool → ℤ
  unfolding content_length raw_length header_values
  request_body_size body headers captured = elim (content_length headers) [
    | some n ↦ pos n
    | none ↦ if not captured then unknown else elim body [
      | some b ↦ raw_length b
      | none ↦
          if nat_beq (length (header_values to_lower headers (txt "transfer-encoding"))) 0
          then pos 0
          else unknown
    ]
  ]

  unfoldable pub bodiless : Text → ℕ → Bool
  bodiless method status =
      to_upper method == txt "HEAD"
      || (leb 100 status && ltb status 200)
      || nat_beq status 204
      || nat_beq status 304

  -- The `bodySize` of `responseSizes`.
  unfoldable pub response_size : Text → ℕ → Option (List HttpHeader) → Bool → Bool → ℤ
  unfolding bodiless content_length
  response_size method status headers complete truncated =
      if bodiless method status
      then pos 0
      else elim (if complete && not truncated then content_length headers else none) [
        | none ↦ unknown
        | some n ↦ pos n
      ]
