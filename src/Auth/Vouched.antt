-- ===== src/Auth/Vouched.antt =====
-- Which address a user of GitHub is signed in with (internal/auth/github.go, verifyGitHub of
-- internal/auth/service.go, and Upsert of internal/auth/store_postgres.go).
use fishhub_server.Prelude.{
  ℕ, String, ◌==◌, ◌≡◌, refl, sym, ap, ◌∙◌, ◌⊎◌, inl, inr, Bool, Bool-cases, true, false, Option,
  none, some, List, [], ◌∷◌, eqb, find_first, find_first-true, arith,
}
use mathlib.Core.Path.{subst}
use mathlib.Core.List.{Mem, mem-cons_self, mem-cons_of_mem}
use fishhub_server.Schema.{User}
use fishhub_server.World.{
  failed, invalid_id_token, email_taken, provider_conflict, Error, Result, ok, err, World, Action,
  lift,
}
use fishhub_server.World.Post.{Post, returns, errs, Post-bind, Post-both, Post-ok}
use fishhub_server.Device.{or_error}
use fishhub_server.Peripherals.Pushes.{decimal}
use fishhub_server.Auth.Store.{same_identity, upsert, upsert-Post}
use fishhub_server.Auth.{
  Config, Identity, as_conflict, display_name, notify, upsert_and_notify, fetch_with, verify_github,
  verify_and_upsert,
}
use fishhub_server.Auth.Github.{
  GithubUser, GithubEmail, Github, body_or_error, fetch_user, is_primary, address_or_error,
  fetch_primary_email, with_address, fetch,
}

-- GitHub has answered the request for the profile with a user.
abbrev pub Shows : Github → String → World → GithubUser → World → Type 0
Shows g token w u v =
    (body : String) × (g.get "/user" token w ≡ (ok (200, body), v)) × (g.decode_user body ≡ some u)

-- GitHub has answered the request for the addresses with a list in which the address is the
-- primary one and verified.
abbrev pub Vouches : Github → String → World → String → Type 0
Vouches g token v email =
    (body : String) × (emails : List GithubEmail) × (v' : World) × (g.get "/user/emails" token v
      ≡ (ok (200, body), v'))
    × (g.decode_emails body ≡ some emails)
    × (e : GithubEmail) × Mem e emails
    × (e.primary ≡ true)
    × (e.verified ≡ true)
    × (email ≡ e.email)

-- The address is that of the profile, or one that GitHub vouches for where the profile has none.
abbrev pub IsAddressOf : Github → String → World → GithubUser → String → Type 0
IsAddressOf g token v u email =
    (((u.email == "") ≡ false) × (email ≡ u.email))
    ⊎ (((u.email == "") ≡ true) × Vouches g token v email)

-- What an action has returned.
Post-itself : {A : Type 0} (o : Result A × World) → Post (λ a v. o ≡ (ok a, v)) (λ _ _. Unit {0}) o
Post-itself (ok a, v) = returns a v refl refl
Post-itself (err e, v) = errs e v refl tt

body_or_error-Post :
    (answer : ℕ × String) (w : World)
    → Post (λ body v. (answer ≡ (200, body)) × (v ≡ w)) (λ _ _. Unit {0}) (body_or_error answer w)
body_or_error-Post (status, body) w = elim (Bool-cases (eqb status 200)) [
  | inl is ↦ rw is (returns body w refl (ap (λ n. (n, body)) (ground arith), refl))
  | inr other ↦ rw other (errs invalid_id_token w refl tt)
]

decoded-Post :
    {A : Type 0} (e : Error) (o : Option A) (w : World)
    → Post (λ a v. (o ≡ some a) × (v ≡ w)) (λ _ _. Unit {0}) (lift (or_error e o) w)
decoded-Post e none w = errs e w refl tt
decoded-Post e (some a) w = returns a w refl (refl, refl)

find_first-Mem :
    (p : GithubEmail → Bool) (xs : List GithubEmail) (x : GithubEmail)
    → find_first p xs ≡ some x
    → Mem x xs
unfolding find_first
find_first-Mem p [] x e = ground arith
find_first-Mem p (y ∷ ys) x e = elim (Bool-cases (p y)) [
  | inl hit ↦ rw (the_first hit) mem-cons_self
  | inr miss ↦ mem-cons_of_mem y (find_first-Mem p ys x (ground arith))
]
  where
    the_first : p y ≡ true → x ≡ y
    the_first hit = ground arith

fetch_user-Post :
    (g : Github) (token : String) (w : World)
    → Post
        (λ i v.
          (u : GithubUser) × Shows g token w u v × (i.email ≡ u.email) × (i.sub ≡ decimal u.id))
        (λ _ _. Unit {0})
        (fetch_user g token w)
unfolding fetch_user
fetch_user-Post g token w =
    Post-bind (g.get "/user" token w) _ (Post-itself (g.get "/user" token w)) (λ answer v got.
      Post-bind (body_or_error answer v) _ (body_or_error-Post answer v) (λ body v1 (is_body, same).
        Post-bind (lift (or_error (failed "decode github user") (g.decode_user body)) v1) _
          (decoded-Post (failed "decode github user") (g.decode_user body) v1)
          (λ u v2 (is_user, same2).
            returns _ v2 refl (u, (body, cc (got, is_body, same, same2), is_user), refl, refl))))

address-Post :
    (emails : List GithubEmail) (w : World)
    → Post
        (λ email v.
          ((e : GithubEmail) × Mem e emails
            × (e.primary ≡ true)
            × (e.verified ≡ true)
            × (email ≡ e.email))
          × (v ≡ w))
        (λ _ _. Unit {0})
        (lift (address_or_error (find_first is_primary emails)) w)
address-Post emails w = go (find_first is_primary emails) refl
  where
    go :
        (o : Option GithubEmail)
        → find_first is_primary emails ≡ o
        → Post
            (λ email v.
              ((e : GithubEmail) × Mem e emails
                × (e.primary ≡ true)
                × (e.verified ≡ true)
                × (email ≡ e.email))
              × (v ≡ w))
            (λ _ _. Unit {0})
            (lift (address_or_error o) w)
    go none e = errs invalid_id_token w refl tt
    go (some m) e =
        let both : is_primary m ≡ true = find_first-true is_primary emails m e in
        returns m.email w refl
          ((m, find_first-Mem is_primary emails m e, ground arith, ground arith, refl), refl)

fetch_primary_email-Post :
    (g : Github) (token : String) (w : World)
    → Post (λ email _. Vouches g token w email) (λ _ _. Unit {0}) (fetch_primary_email g token w)
unfolding fetch_primary_email
fetch_primary_email-Post g token w =
    Post-bind (g.get "/user/emails" token w) _ (Post-itself (g.get "/user/emails" token w))
      (λ answer v got.
        Post-bind (body_or_error answer v) _ (body_or_error-Post answer v)
          (λ body v1 (is_body, same).
            Post-bind (lift (or_error (failed "decode github emails") (g.decode_emails body)) v1) _
              (decoded-Post (failed "decode github emails") (g.decode_emails body) v1)
              (λ emails v2 (is_list, same2).
                Post-both (address-Post emails v2)
                  (λ email v3 ((e, within, primary, verified, is), same3). (
                    body,
                    emails,
                    v2,
                    cc (got, is_body, same, same2),
                    is_list,
                    e,
                    within,
                    primary,
                    verified,
                    is,
                  ))
                  (λ _ _ _. tt))))

with_address-Post :
    (g : Github) (token : String) (u : GithubUser) (i : Identity) (w : World)
    → i.email ≡ u.email
    → Post
        (λ i' _. (i'.sub ≡ i.sub) × IsAddressOf g token w u i'.email)
        (λ _ _. Unit {0})
        (with_address g token i w)
with_address-Post g token u i w same = elim (Bool-cases (i.email == "")) [
  | inl hidden ↦ rw hidden (
      Post-bind (fetch_primary_email g token w) _ (fetch_primary_email-Post g token w)
        (λ email w1 vouched.
          returns (record i { email = email }) w1 refl
            (refl, inr (ap (λ e. e == "") (sym same) ∙ hidden, vouched))))
  | inr shown ↦ rw shown (returns i w refl (refl, inl (ap (λ e. e == "") (sym same) ∙ shown, same)))
]

-- The identity that a fetch returns.
abbrev IsVouched : Github → String → World → Identity → Type 0
IsVouched g token w i =
    (u : GithubUser) × (v : World) × Shows g token w u v
    × (i.sub ≡ decimal u.id)
    × IsAddressOf g token v u i.email

fetch-IsVouched :
    (g : Github) (token : String) (w : World)
    → Post (λ i _. IsVouched g token w i) (λ _ _. Unit {0}) (fetch g token w)
unfolding fetch
fetch-IsVouched g token w =
    Post-bind (fetch_user g token w) _ (fetch_user-Post g token w)
      (λ i v (u, shows, is_email, is_sub).
        Post-both (with_address-Post g token u i v is_email)
          (λ i' v' (same, address). (u, v, shows, same ∙ is_sub, address)) (λ _ _ _. tt))

upsert_and_notify-Post :
    (c : Config) (email name sub : String) (w : World)
    → Post
        (λ user _. (user.email ≡ email) × (same_identity "github" sub user ≡ true))
        (λ _ _. Unit {0})
        (upsert_and_notify c "github" email name sub w)
unfolding upsert_and_notify as_conflict notify
upsert_and_notify-Post c email name sub w =
    Post-bind (as_conflict (upsert email "github" sub w)) _
      (kept (upsert email "github" sub w) (upsert-Post email "github" sub w))
      (λ user v same. told c.on_user_verified user v same)
  where
    Signed : User → World → Type 0
    Signed user v = (user.email ≡ email) × (same_identity "github" sub user ≡ true)

    kept :
        (o : Result User × World)
        → Post Signed (λ _ _. Unit {0}) o
        → Post Signed (λ _ _. Unit {0}) (as_conflict o)
    kept o (returns user v e same) = rw e (returns user v refl same)
    kept o (errs email_taken v e _) = rw e (errs provider_conflict v refl tt)
    kept o (errs x v e _) = rw e (errs _ v refl tt)

    told :
        (handler : Option (String → String → String → Action (Unit {0}))) (user : User) (v : World)
        → Signed user v
        → Post Signed (λ _ _. Unit {0}) (notify handler user (display_name name email) v)
    told none user v same = returns user v refl same
    told (some on_user_verified) user v same =
        Post-bind (on_user_verified user.id user.email (display_name name email) v) _
          (Post-itself (on_user_verified user.id user.email (display_name name email) v))
          (λ _ v1 _. returns user v1 refl same)

-- Where the fetcher is that of GitHub's API: a sign-in that returns a user was answered by GitHub
-- with a profile, the user is the one of that profile's id, and the address that the user is given
-- is that of the profile or, where the profile shows none, one that GitHub has listed as primary
-- and verified. So without such an address no sign-in returns.
pub verify_and_upsert-IsAddressOf :
    (c : Config) (g : Github) (token : String) (user : User) (w : World)
    → c.github_fetch ≡ some (fetch g)
    → (verify_and_upsert c "github" token w).0 ≡ ok user
    → (u : GithubUser) × (v : World) × Shows g token w u v
      × (same_identity "github" (decimal u.id) user ≡ true)
      × IsAddressOf g token v u user.email
unfolding verify_and_upsert verify_github fetch_with
verify_and_upsert-IsAddressOf c g token user w uses signed = Post-ok signed_in-Post signed
  where
    SignedIn : User → World → Type 0
    SignedIn x _ =
        (u : GithubUser) × (v : World) × Shows g token w u v
        × (same_identity "github" (decimal u.id) x ≡ true)
        × IsAddressOf g token v u x.email

    fetched :
        Post (λ i _. IsVouched g token w i) (λ _ _. Unit {0}) (fetch_with c.github_fetch token w)
    fetched =
        subst
          (λ (o : Option (String → Action Identity)).
            Post (λ i _. IsVouched g token w i) (λ _ _. Unit {0}) (fetch_with o token w))
          (sym uses) (fetch-IsVouched g token w)

    signed_in-Post : Post SignedIn (λ _ _. Unit {0}) (verify_github c token w)
    signed_in-Post =
        Post-bind (fetch_with c.github_fetch token w) _ fetched
          (λ i v1 (u, v, shows, is_sub, address).
            Post-both (upsert_and_notify-Post c i.email i.name i.sub v1)
              (λ x _ (same, is_user). (
                u,
                v,
                shows,
                subst (λ sub. same_identity "github" sub x ≡ true) is_sub is_user,
                subst (IsAddressOf g token v u) (sym same) address,
              ))
              (λ _ _ _. tt))
