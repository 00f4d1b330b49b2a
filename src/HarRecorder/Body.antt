-- ===== src/HarRecorder/Body.antt =====
-- What extension/src/har-recorder.ts keeps of a request's body: `storeBody` and what it calls.
pub mod Cut
pub mod Form
pub mod Store
use firefox_ctl.Base.{
  Bool, List, Option, Text, [], any, false, has_key, if◌then◌else◌, insert, is_some, leb, length,
  lookup, ltb, map, map_some, mem_beq, min, nat_eq, none, not, some, take, text_eq, true, txt, ℕ,
  ◌&&◌, ◌++◌, ◌+◌, ◌-◌, ◌||◌, ◌∷◌,
}
use firefox_ctl.Reply.{utf8_length}

-- An upload's part. The bytes are those of its buffer.
pub record UploadData : Type 0 where
  pub bytes : Option (List ℕ)
  pub file : Option Text
  pub truncated : Option Bool
  pub original_size : Option ℕ

-- A form's fields are in the order of `Object.entries`.
pub record RequestBody : Type 0 where
  pub error : Option Text
  pub form_data : Option (List (Text × List Text))
  pub raw : Option (List UploadData)

pub record Kept : Type 0 where
  pub body : RequestBody
  pub used : ℕ
  pub cut : Bool

abbrev pub values_of : Option (List Text) → List Text
values_of none = []
values_of (some values) = values

-- The names that an object literal inherits. What stands there is a function or an object without
-- an iterator, which the source's spread throws at.
unfoldable pub inherited_names : List Text
inherited_names =
    txt "constructor"
    ∷ txt "hasOwnProperty"
    ∷ txt "isPrototypeOf"
    ∷ txt "propertyIsEnumerable"
    ∷ txt "toLocaleString"
    ∷ txt "toString"
    ∷ txt "valueOf"
    ∷ txt "__defineGetter__"
    ∷ txt "__defineSetter__"
    ∷ txt "__lookupGetter__"
    ∷ txt "__lookupSetter__"
    ∷ txt "__proto__"
    ∷ []

unfoldable pub is_inherited : Text → Bool
is_inherited name = mem_beq name inherited_names

unfoldable pub with_value : Text → Text → List (Text × List Text) → List (Text × List Text)
with_value name value kept = insert name (values_of (lookup name kept) ++ value ∷ []) kept

-- `kept[name] = [...(kept[name] ?? []), value]`, or nothing where it throws.
unfoldable pub add_value : Text → Text → List (Text × List Text) → Option (List (Text × List Text))
unfolding with_value is_inherited
add_value name value kept =
    if not (has_key name kept) && is_inherited name then none else some (with_value name value kept)

-- The loops of `cutForm` are one loop over the pairs of a name and a value.
abbrev pub pairs_of : Text → List Text → List (Text × Text)
pairs_of name values = map (λ value. (name, value)) values

unfoldable pub pairs : List (Text × List Text) → List (Text × Text)
pairs [] = []
pairs ((name, values) ∷ fields) = pairs_of name values ++ pairs fields

-- How the loop of `cutForm` ends: the fields kept, the bytes used, and whether it returned early.
abbrev pub FormLoop : Type 0
FormLoop = List (Text × List Text) × ℕ × Bool

unfoldable pub pair_size : Text → Text → ℕ
pair_size name value = utf8_length name + utf8_length value

unfoldable pub form_loop : ℕ → List (Text × Text) → List (Text × List Text) → ℕ → Option FormLoop
unfolding add_value
form_loop limit [] kept used = some (kept, used, false)
form_loop limit ((name, value) ∷ rest) kept used =
    let size = pair_size name value in
    let later : Option FormLoop = elim (add_value name value kept) [
      | none ↦ none
      | some more ↦ form_loop limit rest more (used + size)
    ] in
    if ltb limit (used + size) then some (kept, used, true) else later

abbrev pub kept_form : FormLoop → Kept
kept_form out = record {
  body = record { error = none; form_data = some out.0; raw = none };
  used = out.1;
  cut = out.2;
}

unfoldable pub cut_form : List (Text × List Text) → ℕ → Option Kept
unfolding form_loop
cut_form form_data limit = map_some kept_form (form_loop limit (pairs form_data) [] 0)

abbrev RawLoop : Type 0
RawLoop = List UploadData × ℕ × Bool

-- A part without bytes is copied; one with bytes keeps those that the room allows.
unfoldable pub cut_part : UploadData → ℕ → UploadData
cut_part part room = record {
  bytes = elim part.bytes [
    | none ↦ none
    | some bytes ↦ some (take (min room (length bytes)) bytes)
  ];
  file = part.file;
  truncated = part.truncated;
  original_size = part.original_size;
}

unfoldable pub part_bytes : UploadData → List ℕ
part_bytes part = elim part.bytes [ none ↦ [] | some bytes ↦ bytes ]

unfoldable pub raw_loop : ℕ → List UploadData → ℕ → Bool → RawLoop
raw_loop limit [] used cut = ([], used, cut)
raw_loop limit (part ∷ rest) used cut =
    let size = length (part_bytes part) in
    let kept = min (limit - used) size in
    let later = raw_loop limit rest (used + kept) (cut || ltb kept size) in
    (cut_part part (limit - used) ∷ later.0, later.1, later.2)

unfoldable pub cut_raw : List UploadData → ℕ → Kept
cut_raw raw limit =
    let out = raw_loop limit raw 0 false in
    record {
      body = record { error = none; form_data = none; raw = some out.0 };
      used = out.1;
      cut = out.2;
    }

abbrev pub raw_of : Option (List UploadData) → List UploadData
raw_of none = []
raw_of (some raw) = raw

-- Nothing where `cutForm` throws.
unfoldable pub cut_body : RequestBody → ℕ → Option Kept
unfolding cut_form
cut_body body limit = elim body.error [
  | some error ↦ some (record {
    body = record { error = some error; form_data = none; raw = none };
    used = 0;
    cut = false;
  })
  | none ↦ elim body.form_data [
    | some form_data ↦ cut_form form_data limit
    | none ↦ some (cut_raw (raw_of body.raw) limit)
  ]
]

unfoldable pub has_payload : RequestBody → Bool
has_payload body = elim body.form_data [
  | some form_data ↦ ltb 0 (length form_data)
  | none ↦ any (λ part. ltb 0 (length (part_bytes part))) (raw_of body.raw)
]

-- What `shape` keeps of a part: the size of its bytes, its file and its flag.
pub record PartShape : Type 0 where
  pub byte_length : Option ℕ
  pub file : Option Text
  pub truncated : Option Bool

-- The shape of a form is that there is one.
pub record RequestBodyShape : Type 0 where
  pub error : Option Text
  pub has_form_data : Bool
  pub raw : Option (List PartShape)

unfoldable pub part_shape : UploadData → PartShape
part_shape part = record {
  byte_length = elim part.bytes [ none ↦ none | some bytes ↦ some (length bytes) ];
  file = part.file;
  truncated = part.truncated;
}

unfoldable pub shape : RequestBody → RequestBodyShape
shape body = record {
  error = body.error;
  has_form_data = is_some body.form_data;
  raw = elim body.raw [ none ↦ none | some raw ↦ some (map part_shape raw) ];
}

-- What a hop stores of its request's body.
pub record StoredBody : Type 0 where
  pub request_body : RequestBodyShape
  pub stored : Option RequestBody
  pub cut : Bool
  pub dropped : Bool

abbrev pub store_kept : RequestBody → ℕ → Kept → StoredBody × ℕ
store_kept body budget kept = (
  record { request_body = shape body; stored = some kept.body; cut = kept.cut; dropped = false },
  budget - kept.used,
)

-- The body of a hop that stores none yet: what it keeps, and the budget left; nothing where it
-- throws.
unfoldable pub store_body : ℕ → ℕ → RequestBody → Option (StoredBody × ℕ)
unfolding cut_body
store_body max_body_size budget body =
    if leb budget 0 && has_payload body
    then some
        (record { request_body = shape body; stored = none; cut = false; dropped = true }, budget)
    else map_some (store_kept body budget) (cut_body body (min max_body_size budget))
