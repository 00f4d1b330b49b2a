-- ===== src/HarRecorder/Body/Form.antt =====
-- How much of a form extension/src/har-recorder.ts keeps: names and values measured as UTF-8.
use firefox_ctl.Base.{
  All, Bool, Bool-cases, List, Option, Text, [], ap, append-nil, append_assoc, arith, false,
  has_key, if◌then◌else◌, inl, inr, insert, length, lookup, lookup-insert, ltb, map_some, nat_eq,
  none, not, or_else, refl, some, suc, sym, take, text_beq, text_beq_iff, text_eq, true, ℕ, ◌&&◌,
  ◌++◌, ◌+◌, ◌<◌, ◌==◌, ◌∙◌, ◌∷◌, ◌≡◌, ◌≤◌, ◌⊎◌,
}
use firefox_ctl.HarRecorder.Body.{
  Kept, RequestBody, add_value, cut_form, form_loop, is_inherited, kept_form, pair_size, pairs,
  pairs_of, values_of, with_value,
}

unfoldable pub pairs_size : List (Text × Text) → ℕ
pairs_size [] = 0
pairs_size ((name, value) ∷ rest) = pair_size name value + pairs_size rest

pairs_size-append :
    (ps qs : List (Text × Text)) → pairs_size (ps ++ qs) ≡ pairs_size ps + pairs_size qs
unfolding pairs_size
pairs_size-append [] qs = omega arith
pairs_size-append ((name, value) ∷ ps) qs = omega (arith, pairs_size-append ps qs)

unfoldable pub form_size : List (Text × List Text) → ℕ
form_size fields = pairs_size (pairs fields)

pair_size-eq : (a b v : Text) → a ≡ b → pair_size a v ≡ pair_size b v
pair_size-eq a b v e = ap (λ n. pair_size n v) e

form_size-nil : form_size [] ≡ 0
unfolding form_size pairs_size pairs
form_size-nil = refl

pairs_of-nil : (name : Text) → pairs_size (pairs_of name []) ≡ 0
unfolding pairs_size
pairs_of-nil name = refl

pairs_of-snoc :
    (name value : Text) (values : List Text)
    → pairs_size (pairs_of name (values ++ value ∷ []))
      ≡ pairs_size (pairs_of name values) + pair_size name value
unfolding pairs_size
pairs_of-snoc name value [] = omega arith
pairs_of-snoc name value (v ∷ vs) = omega (arith, pairs_of-snoc name value vs)

form_size-cons :
    (name : Text) (values : List Text) (rest : List (Text × List Text))
    → form_size ((name, values) ∷ rest) ≡ pairs_size (pairs_of name values) + form_size rest
unfolding form_size pairs
form_size-cons name values rest = pairs_size-append (pairs_of name values) (pairs rest)

with_value-nil : (name value : Text) → with_value name value [] ≡ (name, value ∷ []) ∷ []
unfolding with_value lookup insert
with_value-nil name value = refl

with_value-hit :
    (name value old : Text) (values : List Text) (rest : List (Text × List Text))
    → (old == name) ≡ true
    → with_value name value ((old, values) ∷ rest) ≡ (old, values ++ value ∷ []) ∷ rest
unfolding with_value lookup insert
with_value-hit name value old values rest e = rw e refl

insert-miss :
    (name old : Text) (added values : List Text) (rest : List (Text × List Text))
    → (old == name) ≡ false
    → insert name added ((old, values) ∷ rest) ≡ (old, values) ∷ insert name added rest
unfolding insert
insert-miss name old added values rest e = rw e refl

lookup-miss :
    (name old : Text) (values : List Text) (rest : List (Text × List Text))
    → (old == name) ≡ false
    → lookup name ((old, values) ∷ rest) ≡ lookup name rest
unfolding lookup
lookup-miss name old values rest e = rw e refl

with_value-miss :
    (name value old : Text) (values : List Text) (rest : List (Text × List Text))
    → (old == name) ≡ false
    → with_value name value ((old, values) ∷ rest) ≡ (old, values) ∷ with_value name value rest
unfolding with_value
with_value-miss name value old values rest e =
    insert-miss name old _ values rest e
    ∙ ap (λ o. (old, values) ∷ insert name (values_of o ++ value ∷ []) rest)
        (lookup-miss name old values rest e)

form_size-with_value :
    (name value : Text) (kept : List (Text × List Text))
    → form_size (with_value name value kept) ≡ form_size kept + pair_size name value
form_size-with_value name value [] =
    ap form_size (with_value-nil name value)
    ∙ form_size-cons name (value ∷ []) []
    ∙ omega (arith, pairs_of-snoc name value [], form_size-nil, pairs_of-nil name)
form_size-with_value name value ((old, values) ∷ rest) = elim (Bool-cases (old == name)) [
  | inl e ↦
      ap form_size (with_value-hit name value old values rest e)
      ∙ form_size-cons old (values ++ value ∷ []) rest
      ∙ omega (
        arith,
        pairs_of-snoc old value values,
        form_size-cons old values rest,
        pair_size-eq old name value ((text_beq_iff old name).0 e),
      )
  | inr e ↦
      ap form_size (with_value-miss name value old values rest e)
      ∙ form_size-cons old values (with_value name value rest)
      ∙ omega (arith, form_size-with_value name value rest, form_size-cons old values rest)
]

-- The values of a name among the pairs.
unfoldable pub named : Text → List (Text × Text) → List Text
named name [] = []
named name ((other, value) ∷ rest) =
    let later = named name rest in if other == name then value ∷ later else later

abbrev pub IsOwn : Text × Text → Type 0
IsOwn pair = is_inherited pair.0 ≡ false

-- What the loop makes of the pairs that are left: the first of them, as many as fit, each value
-- under its name after those that were there. It throws at an inherited name only.
pub record IsLooped (limit : ℕ) (rest : List (Text × Text)) (kept : List (Text × List Text))
    (used : ℕ) (out : List (Text × List Text) × ℕ × Bool) : Type 0 where
  pub measured : form_size out.0 ≡ out.1
  pub within : out.1 ≤ limit
  pub cuts : out.2 ≡ ltb limit (used + pairs_size rest)
  pub count : ℕ
  pub taken : out.1 ≡ used + pairs_size (take count rest)
  pub values :
      (name : Text)
      → values_of (lookup name out.0) ≡ values_of (lookup name kept) ++ named name (take count rest)
  pub no_more : (length rest ≤ count) ⊎ (limit < used + pairs_size (take (suc count) rest))

abbrev pub LoopEnds :
    ℕ
    → List (Text × Text)
    → List (Text × List Text)
    → ℕ
    → Option (List (Text × List Text) × ℕ × Bool)
    → Type 0
LoopEnds limit rest kept used none = All IsOwn rest → ⊥
LoopEnds limit rest kept used (some out) = IsLooped limit rest kept used out

lookup-with_value :
    (name value other : Text) (kept : List (Text × List Text))
    → values_of (lookup other (with_value name value kept))
      ≡ values_of (lookup other kept) ++ named other ((name, value) ∷ [])
unfolding with_value named
lookup-with_value name value other kept =
    ap values_of (lookup-insert name other (values_of (lookup name kept) ++ value ∷ []) kept)
    ∙ elim (Bool-cases (text_beq name other)) [
      | inl e ↦
          let same : name ≡ other = (text_beq_iff name other).0 e in
          rw e (ap (λ n. values_of (lookup n kept) ++ value ∷ []) same)
      | inr e ↦ rw e (sym (append-nil (values_of (lookup other kept))))
    ]

named-cons :
    (name : Text) (pair : Text × Text) (rest : List (Text × Text))
    → named name (pair ∷ rest) ≡ named name (pair ∷ []) ++ named name rest
unfolding named
named-cons name pair rest = elim (Bool-cases (pair.0 == name)) [
  | inl e ↦ rw e refl
  | inr e ↦ rw e refl
]

IsLooped-next :
    (limit : ℕ) (name value : Text) (rest : List (Text × Text)) (kept : List (Text × List Text))
    (used : ℕ) (out : Option (List (Text × List Text) × ℕ × Bool))
    → LoopEnds limit rest (with_value name value kept) (used + pair_size name value) out
    → LoopEnds limit ((name, value) ∷ rest) kept used out
unfolding pairs_size
IsLooped-next limit name value rest kept used none h = λ own. h own.1
IsLooped-next limit name value rest kept used (some out) h = record {
  measured = h.measured;
  within = h.within;
  cuts = h.cuts ∙ ap (λ n. ltb limit n) (omega arith);
  count = suc h.count;
  taken = h.taken ∙ omega arith;
  values = λ other.
      h.values other
      ∙ ap (λ xs. xs ++ named other (take h.count rest)) (lookup-with_value name value other kept)
      ∙ append_assoc (values_of (lookup other kept)) (named other ((name, value) ∷ []))
          (named other (take h.count rest))
      ∙ ap (λ xs. values_of (lookup other kept) ++ xs)
          (sym (named-cons other (name, value) (take h.count rest)));
  no_more = elim h.no_more [ inl e ↦ inl (omega (arith, e)) | inr e ↦ inr (omega (arith, e)) ];
}

-- The loop from any point.
form_loop_lem :
    (limit : ℕ) (rest : List (Text × Text)) (kept : List (Text × List Text)) (used : ℕ)
    → form_size kept ≡ used
    → used ≤ limit
    → LoopEnds limit rest kept used (form_loop limit rest kept used)
unfolding form_loop add_value pairs_size named
form_loop_lem limit [] kept used e le = record {
  measured = e;
  within = le;
  cuts = ground arith;
  count = 0;
  taken = omega arith;
  values = λ name. sym (append-nil (values_of (lookup name kept)));
  no_more = inl (omega arith);
}
form_loop_lem limit ((name, value) ∷ rest) kept used e le =
    elim (Bool-cases (ltb limit (used + pair_size name value))) [
      | inl over ↦ rw over (record {
        measured = e;
        within = le;
        cuts = ground arith;
        count = 0;
        taken = omega arith;
        values = λ other. sym (append-nil (values_of (lookup other kept)));
        no_more = inr (ground arith);
      })
      | inr fits ↦ rw fits (elim (Bool-cases (not (has_key name kept) && is_inherited name)) [
        | inl bad ↦ rw bad (λ own. inherited_clash _ _ bad own.0)
        | inr good ↦ rw good (
            IsLooped-next limit name value rest kept used _ (
              form_loop_lem limit rest (with_value name value kept) (used + pair_size name value)
                (omega (arith, form_size-with_value name value kept, e)) (ground arith)))
      ])
    ]
  where
    inherited_clash : (a b : Bool) → a && b ≡ true → b ≡ false → ⊥
    inherited_clash a b h k = ground arith

-- The form of a body; one without a form has no fields.
abbrev pub fields_of : RequestBody → List (Text × List Text)
fields_of body = or_else body.form_data []

-- What is kept of a form.
pub record IsCutForm (form_data : List (Text × List Text)) (limit : ℕ) (kept : Kept) : Type 0 where
  pub measured : form_size (fields_of kept.body) ≡ kept.used
  pub within : kept.used ≤ limit
  pub cuts : kept.cut ≡ ltb limit (form_size form_data)
  pub count : ℕ
  pub taken : kept.used ≡ pairs_size (take count (pairs form_data))
  pub values :
      (name : Text)
      → values_of (lookup name (fields_of kept.body)) ≡ named name (take count (pairs form_data))
  pub no_more :
      (length (pairs form_data) ≤ count) ⊎ (limit < pairs_size (take (suc count) (pairs form_data)))

abbrev pub FormEnds : List (Text × List Text) → ℕ → Option Kept → Type 0
FormEnds form_data limit none = All IsOwn (pairs form_data) → ⊥
FormEnds form_data limit (some kept) = IsCutForm form_data limit kept

LoopEnds-FormEnds :
    (form_data : List (Text × List Text)) (limit : ℕ)
    (out : Option (List (Text × List Text) × ℕ × Bool))
    → LoopEnds limit (pairs form_data) [] 0 out
    → FormEnds form_data limit (map_some kept_form out)
unfolding form_size lookup
LoopEnds-FormEnds form_data limit none h = h
LoopEnds-FormEnds form_data limit (some out) h = record {
  measured = h.measured;
  within = h.within;
  cuts = h.cuts ∙ ap (λ n. ltb limit n) (omega arith);
  count = h.count;
  taken = h.taken ∙ omega arith;
  values = h.values;
  no_more = elim h.no_more [ inl e ↦ inl e | inr e ↦ inr (omega (arith, e)) ];
}

-- Of a form, `cutForm` keeps the first values, in their order and under their names, as many as
-- measure no more than the limit: no more are left, or the next one would not fit. They measure
-- exactly what it uses, and it says that it cut when the whole form is larger than the limit. It
-- throws only where the form has a field with an inherited name.
pub cut_form_lem :
    (form_data : List (Text × List Text)) (limit : ℕ)
    → FormEnds form_data limit (cut_form form_data limit)
unfolding cut_form
cut_form_lem form_data limit =
    LoopEnds-FormEnds form_data limit (form_loop limit (pairs form_data) [] 0)
      (form_loop_lem limit (pairs form_data) [] 0 form_size-nil (omega arith))
