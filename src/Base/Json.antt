-- ===== src/Base/Json.antt =====
-- The values of a dynamic language: numbers, and what a JSON text can hold.
use mathlib.Core.Path.{◌≡◌}
use mathlib.Core.Bool.{Bool, true, false, ◌&&◌, not}
use mathlib.Core.Option.{Option, none, some}
use Prim.Native.Nat.{ℕ}
use native.Mathlib.Omega.{arith}
use firefox_ctl.Base.Tests.{Text, if◌then◌else◌, leb, nat_beq}
use firefox_ctl.Base.Eq.{nat_eq, text_beq_iff, text_eq, ◌==◌}

-- A double. A finite one has a sign (true is negative), the whole part of its absolute value, and
-- the rest of it in units of 2 ^ -1074, of which every double is a multiple.
pub data Number : Type 0 where
  nan : Number
  infinite : Bool → Number
  finite : Bool → ℕ → ℕ → Number

-- `Math.trunc(x)` of a finite number, NaN else.
unfoldable pub trunc_finite : Number → Number
trunc_finite (finite s w f) = finite s w 0
trunc_finite other = nan

-- `x >= n`
unfoldable pub ge_nat : Number → ℕ → Bool
ge_nat nan n = false
ge_nat (infinite s) n = not s
ge_nat (finite false w f) n = leb n w
ge_nat (finite true w f) n = nat_beq n 0 && (nat_beq w 0 && nat_beq f 0)

-- `x <= n`
unfoldable pub le_nat : Number → ℕ → Bool
le_nat nan n = false
le_nat (infinite s) n = s
le_nat (finite false w f) n = leb w n && (if nat_beq w n then nat_beq f 0 else true)
le_nat (finite true w f) n = true

-- `Number.isInteger(x)`
unfoldable pub is_integer : Number → Bool
is_integer (finite s w f) = nat_beq f 0
is_integer other = false

abbrev pub number : ℕ → Number
number n = finite false n 0

mutual
  pub data Json : Type 0 where
    text : Text → Json
    num : Number → Json
    bool : Bool → Json
    null : Json
    arr : Items → Json
    obj : Fields → Json

  pub data Items : Type 0 where
    nil : Items
    cons : Json → Items → Items

  pub data Fields : Type 0 where
    end : Fields
    field : Text → Json → Fields → Fields

-- `object[key]`; none is undefined.
unfoldable pub get : Text → Fields → Option Json
get k end = none
get k (field j v fs) = if j == k then some v else get k fs

-- A copy with `delete copy[key]`.
unfoldable pub without : Text → Fields → Fields
without k end = end
without k (field j v fs) = if j == k then without k fs else field j v (without k fs)

pub get-without :
    (k j : Text) (fs : Fields) → get j (without k fs) ≡ (if k == j then none else get j fs)
unfolding get without
get-without k j end = ground arith
get-without k j (field i v fs) =
    ground (arith, text_beq_iff k j, text_beq_iff i k, text_beq_iff i j, get-without k j fs)

-- `typeof value === "string"` and its kin, on a value that may be undefined.
abbrev pub as_text : Option Json → Option Text
as_text (some (text t)) = some t
as_text other = none

abbrev pub as_number : Option Json → Option Number
as_number (some (num n)) = some n
as_number other = none

abbrev pub as_bool : Option Json → Option Bool
as_bool (some (bool b)) = some b
as_bool other = none

abbrev pub as_object : Option Json → Option Fields
as_object (some (obj fs)) = some fs
as_object other = none

-- `value === undefined || value === null`
abbrev pub is_missing : Option Json → Bool
is_missing none = true
is_missing (some null) = true
is_missing other = false
