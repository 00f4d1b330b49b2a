-- ===== src/Har/Fit/Shells.antt =====
-- What the shell of an entry is: its bodies marked as dropped, each counted once.
use firefox_ctl.Base.{
  Bool, Bool-cases, Option, ap, arith, false, inl, inr, none, refl, some, true, ℕ, ◌&&◌, ◌+◌, ◌∙◌,
  ◌≡◌,
}
use firefox_ctl.Har.{HarContent, HarEntry, HarPostData}
use firefox_ctl.Har.Log.{content, dropped_bodies, one_if, post_dropped}
use firefox_ctl.Har.Fit.{
  filled_post, filled_request, filled_text, shell, shell_bodies, shell_content, shell_post,
  shell_request,
}

-- No body of the entry is marked as dropped while it is there.
abbrev pub ContentIsFresh : HarContent → Type 0
ContentIsFresh content = content.body_dropped && filled_text content.text ≡ false

unfoldable pub PostIsFresh : Option HarPostData → Type 0
PostIsFresh none = Unit
PostIsFresh (some post) = post.body_dropped && filled_post post ≡ false

abbrev pub IsFresh : HarEntry → Type 0
IsFresh e = ContentIsFresh e.response.content × PostIsFresh e.request.post_data

and_false : (b : Bool) → b && false ≡ false
and_false b = ground arith

shell_content-fresh : (c : HarContent) → ContentIsFresh c → ContentIsFresh (shell_content c)
unfolding shell_content filled_text
shell_content-fresh c h = elim (Bool-cases (filled_text c.text)) [
  | inl filled ↦ rw (filled, ContentIsFresh) refl
  | inr empty ↦ rw empty h
]

shell_post-fresh : (p : Option HarPostData) → PostIsFresh p → PostIsFresh (shell_request p)
unfolding shell_request shell_post filled_post filled_text PostIsFresh
shell_post-fresh none h = tt
shell_post-fresh (some p) h = elim (Bool-cases (filled_post p)) [
  | inl filled ↦ rw filled refl
  | inr empty ↦ rw empty h
]

pub shell-IsFresh : (e : HarEntry) → IsFresh e → IsFresh (shell e)
unfolding shell
shell-IsFresh e (c, p) =
    (shell_content-fresh e.response.content c, shell_post-fresh e.request.post_data p)

none_sum : (n : ℕ) → n ≡ n + 0
none_sum n = omega arith

fresh_sum : (d f : Bool) → d && f ≡ false → f ≡ true → 1 ≡ one_if d + 1
fresh_sum d f h k = ground arith

shell_content_count :
    (c : HarContent)
    → ContentIsFresh c
    → one_if (shell_content c).body_dropped ≡ one_if c.body_dropped + one_if (filled_text c.text)
unfolding shell_content
shell_content_count c h = elim (Bool-cases (filled_text c.text)) [
  | inl filled ↦ rw filled (fresh_sum c.body_dropped (filled_text c.text) h filled)
  | inr empty ↦ rw empty (none_sum (one_if c.body_dropped))
]

shell_post_count :
    (p : Option HarPostData)
    → PostIsFresh p
    → post_dropped (shell_request p) ≡ post_dropped p + one_if (filled_request p)
unfolding shell_request shell_post filled_request PostIsFresh
shell_post_count none h = refl
shell_post_count (some p) h = elim (Bool-cases (filled_post p)) [
  | inl filled ↦ rw filled (fresh_sum p.body_dropped (filled_post p) h filled)
  | inr empty ↦ rw empty (none_sum (one_if p.body_dropped))
]

-- Dropping the bodies of an entry counts each of them once.
pub dropped_bodies-shell :
    (e : HarEntry) → IsFresh e → dropped_bodies (shell e) ≡ dropped_bodies e + shell_bodies e
unfolding dropped_bodies shell shell_bodies
dropped_bodies-shell e (c, p) =
    omega (arith, shell_content_count e.response.content c, shell_post_count e.request.post_data p)

shell_content_twice : (c : HarContent) → shell_content (shell_content c) ≡ shell_content c
unfolding shell_content filled_text
shell_content_twice c = elim (Bool-cases (filled_text c.text)) [
  | inl filled ↦ rw filled refl
  | inr empty ↦ rw (empty, empty) refl
]

shell_request_twice : (p : Option HarPostData) → shell_request (shell_request p) ≡ shell_request p
unfolding shell_request shell_post filled_post filled_text
shell_request_twice none = refl
shell_request_twice (some p) = elim (Bool-cases (filled_post p)) [
  | inl filled ↦ rw filled refl
  | inr empty ↦ rw (empty, empty) refl
]

-- A shell has nothing left to drop.
pub shell-shell : (e : HarEntry) → shell (shell e) ≡ shell e
unfolding shell
shell-shell e =
    ap (λ c. parted c (shell_request (shell_request e.request.post_data)))
      (shell_content_twice e.response.content)
    ∙ ap (parted (shell_content e.response.content)) (shell_request_twice e.request.post_data)
  where
    parted : HarContent → Option HarPostData → HarEntry
    parted content post = record e {
      request = record e.request { post_data = post };
      response = record e.response { content = content };
    }
