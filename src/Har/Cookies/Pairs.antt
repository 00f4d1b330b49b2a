-- ===== src/Har/Cookies/Pairs.antt =====
-- The cookies of a request, printed as a browser prints them, and read back.
use firefox_ctl.Base.{
  All, All-append, Bool, List, Text, [], ap, append_assoc, false, keep_some, map, nat_beq, nat_eq,
  refl, some, sym, text_beq, text_eq, true, txt, ℕ, ◌++◌, ◌==◌, ◌∙◌, ◌∷◌, ◌≡◌,
}
use firefox_ctl.Base.Texts.{cut_at, is_space, join, split, trim, trim_start}
use firefox_ctl.Base.Splitting.{
  EndsClean, EndsClean-append, IsFree, StartsClean, StartsClean-append, cut_at-append, split-append,
  split-free, trim-clean,
}
use firefox_ctl.Har.Cookies.{name_value, name_values, plain_cookie, request_cookies}

-- `name=value`
unfoldable pub print_pair : Text × Text → Text
print_pair p = p.0 ++ b'=' ∷ p.1

unfoldable pub print_cookies : List (Text × Text) → Text
unfolding print_pair join
print_cookies pairs = join (txt "; ") (map print_pair pairs)

abbrev pub IsTrimmed : Text → Type 0
IsTrimmed t = StartsClean t × EndsClean t

-- Neither part holds a `;`, the name no `=`, and both are trimmed.
pub record IsCookiePair (p : Text × Text) : Type 0 where
  pub name_no_eq : IsFree b'=' p.0
  pub name_no_end : IsFree b';' p.0
  pub value_no_end : IsFree b';' p.1
  pub name_trimmed : IsTrimmed p.0
  pub value_trimmed : IsTrimmed p.1

pair_starts : (p : Text × Text) → IsCookiePair p → StartsClean (print_pair p)
unfolding print_pair is_space
pair_starts p h = StartsClean-append p.0 (b'=' ∷ p.1) h.name_trimmed.0 refl

value_ends : (v : Text) → EndsClean v → EndsClean (b'=' ∷ v)
unfolding is_space
value_ends [] h = refl
value_ends (x ∷ v) h = h

pair_trimmed : (p : Text × Text) → IsCookiePair p → trim (print_pair p) ≡ print_pair p
unfolding print_pair
pair_trimmed p h =
    trim-clean (print_pair p) (pair_starts p h)
      (EndsClean-append p.0 b'=' p.1 (value_ends p.1 h.value_trimmed.1))

append_filled : (t : Text) (c : ℕ) (u : Text) → (t ++ c ∷ u == []) ≡ false
unfolding text_beq
append_filled [] c u = refl
append_filled (x ∷ t) c u = refl

pair_filled : (p : Text × Text) → (print_pair p == []) ≡ false
unfolding print_pair
pair_filled p = append_filled p.0 b'=' p.1

pair-IsFree : (p : Text × Text) → IsCookiePair p → IsFree b';' (print_pair p)
unfolding print_pair
pair-IsFree p h =
    All-append (λ x. nat_beq x b';' ≡ false) p.0 (b'=' ∷ p.1) h.name_no_end (refl, h.value_no_end)

-- A space before the pair, where it is not the first.
lead : Bool → Text
lead true = b' ' ∷ []
lead false = []

lead_trimmed :
    (first : Bool) (p : Text × Text)
    → IsCookiePair p
    → trim (lead first ++ print_pair p) ≡ print_pair p
unfolding lead trim trim_start is_space
lead_trimmed true p h = pair_trimmed p h
lead_trimmed false p h = pair_trimmed p h

name_value_of :
    (t : Text) (p : Text × Text)
    → trim t ≡ print_pair p
    → IsCookiePair p
    → name_value t ≡ some (plain_cookie p.0 p.1)
unfolding name_value trim print_pair
name_value_of t p e h =
    rw ((ap (λ u. u == []) e ∙ pair_filled p), (ap (cut_at b'=') e ∙ cut)) (ap some both)
  where
    cut : cut_at b'=' (print_pair p) ≡ some p
    cut = cut_at-append b'=' p.0 p.1 h.name_no_eq

    both : plain_cookie (trim p.0) (trim p.1) ≡ plain_cookie p.0 p.1
    both =
        ap (λ n. plain_cookie n (trim p.1)) (trim-clean p.0 h.name_trimmed.0 h.name_trimmed.1)
        ∙ ap (plain_cookie p.0) (trim-clean p.1 h.value_trimmed.0 h.value_trimmed.1)

name_value_lem :
    (spaced : Bool) (p : Text × Text)
    → IsCookiePair p
    → name_value (lead spaced ++ print_pair p) ≡ some (plain_cookie p.0 p.1)
unfolding name_value
name_value_lem spaced p h =
    name_value_of (lead spaced ++ print_pair p) p (lead_trimmed spaced p h) h

lead-IsFree :
    (spaced : Bool) (p : Text × Text) → IsCookiePair p → IsFree b';' (lead spaced ++ print_pair p)
unfolding lead
lead-IsFree true p h = (refl, pair-IsFree p h)
lead-IsFree false p h = pair-IsFree p h

names_lem :
    (spaced : Bool) (p : Text × Text) (ps : List (Text × Text))
    → IsCookiePair p
    → All IsCookiePair ps
    → name_values (split b';' (lead spaced ++ print_cookies (p ∷ ps)))
      ≡ map (λ q. plain_cookie q.0 q.1) (p ∷ ps)
unfolding name_values print_cookies join lead
names_lem spaced p [] h k =
    ap name_values (split-free b';' (lead spaced ++ print_pair p) (lead-IsFree spaced p h))
    ∙ ap (λ c. keep_some c []) (name_value_lem spaced p h)
names_lem spaced p (q ∷ ps) h (l, k) =
    ap (λ t. name_values (split b';' t)) (sym (append_assoc (lead spaced) (print_pair p) _))
    ∙ ap name_values (
        split-append b';' (lead spaced ++ print_pair p) (b' ' ∷ print_cookies (q ∷ ps))
          (lead-IsFree spaced p h))
    ∙ ap (λ c. keep_some c (name_values (split b';' (lead true ++ print_cookies (q ∷ ps)))))
        (name_value_lem spaced p h)
    ∙ ap (λ cs. plain_cookie p.0 p.1 ∷ cs) (names_lem true q ps l k)

-- The cookies that a header lists, each as `name=value` with `; ` between them, are the cookies
-- that the log gives, in that order.
pub request_cookies-print_cookies :
    (pairs : List (Text × Text))
    → All IsCookiePair pairs
    → request_cookies (print_cookies pairs) ≡ map (λ q. plain_cookie q.0 q.1) pairs
unfolding request_cookies print_cookies name_values split name_value lead text_beq
request_cookies-print_cookies [] h = refl
request_cookies-print_cookies (p ∷ pairs) (h, k) = names_lem false p pairs h k
