-- ===== src/HarRecorder/Body/Store.antt =====
-- What the stored body of a request takes of the budget, extension/src/har-recorder.ts.
use firefox_ctl.Base.{
  All, Bool-cases, List, Option, Option-cases, Text, [], ap, arith, inl, inr, leb, length,
  length-take, map_some, min, none, or_else, refl, some, subst, sym, take-min, ℕ, ◌&&◌, ◌+◌, ◌∙◌,
  ◌≡◌, ◌≤◌,
}
use firefox_ctl.HarRecorder.Body.{
  FormLoop, Kept, RequestBody, StoredBody, UploadData, cut_body, cut_form, cut_raw, has_payload,
  kept_form, pairs, raw_of, store_body, store_kept,
}
use firefox_ctl.HarRecorder.Body.Cut.{all_bytes, cut_raw_lem}
use firefox_ctl.HarRecorder.Body.Form.{FormEnds, IsOwn, cut_form_lem, fields_of, form_size}

unfoldable pub body_size : RequestBody → ℕ
body_size body = elim body.form_data [
  | some form_data ↦ form_size form_data
  | none ↦ length (all_bytes (raw_of body.raw))
]

unfoldable pub stored_size : StoredBody → ℕ
stored_size s = elim s.stored [ none ↦ 0 | some body ↦ body_size body ]

-- What is kept of a body; nothing only where its form has a field with an inherited name.
abbrev pub HasOwnNames : RequestBody → Type 0
HasOwnNames body = All IsOwn (pairs (fields_of body))

abbrev CutEnds : RequestBody → ℕ → Option Kept → Type 0
CutEnds body limit none = HasOwnNames body → ⊥
CutEnds body limit (some kept) = (body_size kept.body ≡ kept.used) × (kept.used ≤ limit)

cut_form-CutEnds :
    (body : RequestBody) (form_data : List (Text × List Text)) (limit : ℕ) (out : Option FormLoop)
    → body.form_data ≡ some form_data
    → FormEnds form_data limit (map_some kept_form out)
    → CutEnds body limit (map_some kept_form out)
unfolding body_size
cut_form-CutEnds body form_data limit none f h =
    λ own. h (subst (λ o. All IsOwn (pairs (or_else o []))) f own)
cut_form-CutEnds body form_data limit (some out) f h = (h.measured, h.within)

cut_raw-body_size :
    (raw : List UploadData) (limit : ℕ)
    → (body_size (cut_raw raw limit).body ≡ (cut_raw raw limit).used)
      × ((cut_raw raw limit).used ≤ limit)
unfolding body_size cut_raw
cut_raw-body_size raw limit =
    let e = cut_raw_lem raw limit in
    (
      ap length e.0
          ∙ ap length (sym (take-min limit (all_bytes raw)))
          ∙ length-take (min limit (length (all_bytes raw))) (all_bytes raw) (omega arith)
          ∙ sym e.1,
      omega (arith, e.1),
    )

error_size :
    (error : Text) → body_size (record { error = some error; form_data = none; raw = none }) ≡ 0
unfolding body_size all_bytes
error_size error = refl

cut_body-CutEnds : (body : RequestBody) (limit : ℕ) → CutEnds body limit (cut_body body limit)
unfolding cut_body cut_form
cut_body-CutEnds body limit = elim (Option-cases body.error) [
  | inr (error, e) ↦ rw (e, cut_body) (error_size error, omega arith)
  | inl e ↦ elim (Option-cases body.form_data) [
    | inr (form_data, f) ↦
        subst (CutEnds body limit) (sym (form_cut body form_data limit e f))
          (cut_form-CutEnds body form_data limit _ f (cut_form_lem form_data limit))
    | inl f ↦
        subst (CutEnds body limit) (sym (raw_cut body limit e f))
          (cut_raw-body_size (raw_of body.raw) limit)
  ]
]
  where
    form_cut :
        (body : RequestBody) (form_data : List (Text × List Text)) (limit : ℕ)
        → body.error ≡ none
        → body.form_data ≡ some form_data
        → cut_body body limit ≡ cut_form form_data limit
    form_cut body form_data limit e f = rw (e, cut_body) (rw (f, cut_body) refl)

    raw_cut :
        (body : RequestBody) (limit : ℕ)
        → body.error ≡ none
        → body.form_data ≡ none
        → cut_body body limit ≡ some (cut_raw (raw_of body.raw) limit)
    raw_cut body limit e f = rw (e, cut_body) (rw (f, cut_body) refl)

-- The stored body and what it takes of the budget; nothing only where the source throws.
abbrev pub IsStored : ℕ → ℕ → RequestBody → Option (StoredBody × ℕ) → Type 0
IsStored max_body_size budget body none = HasOwnNames body → ⊥
IsStored max_body_size budget body (some out) =
    (out.1 + stored_size out.0 ≡ budget) × (stored_size out.0 ≤ max_body_size)

store_kept-IsStored :
    (max_body_size budget : ℕ) (body : RequestBody) (kept : Option Kept)
    → CutEnds body (min max_body_size budget) kept
    → IsStored max_body_size budget body (map_some (store_kept body budget) kept)
unfolding stored_size
store_kept-IsStored max_body_size budget body none h = h
store_kept-IsStored max_body_size budget body (some kept) h = (omega (arith, h), omega (arith, h))

-- Storing a request's body takes of the budget exactly what the stored body measures (bytes of an
-- upload, UTF-8 bytes of a form's names and values), and stores no more than the body cap. It
-- throws only where the form has a field with a name that objects inherit.
pub store_body_lem :
    (max_body_size budget : ℕ) (body : RequestBody)
    → IsStored max_body_size budget body (store_body max_body_size budget body)
unfolding store_body stored_size
store_body_lem max_body_size budget body = elim (Bool-cases (leb budget 0 && has_payload body)) [
  | inl e ↦ rw e (omega arith, omega arith)
  | inr e ↦ rw e (
      store_kept-IsStored max_body_size budget body (cut_body body (min max_body_size budget))
        (cut_body-CutEnds body (min max_body_size budget)))
]
