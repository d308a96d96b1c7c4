-- ===== src/SignIn/Signout/Revokes.antt =====
-- What a sign-out of packages/vestibulum/src/lambda/handlers/auth-signout/index.ts rests on.
use saas_foundation.Prelude.{
  ℕ, ◌≡◌, ◌≢◌, refl, ◌∙◌, ◌⊎◌, inl, inr, Bool, true, false, ◌||◌, Option, some, List, [], ◌∷◌, ◌++◌,
  ◌==◌, length, or_else, Bool-cases, Option-cases,
}
use saas_foundation.Text.{Text, text_of, starts_with}
use saas_foundation.SignIn.Values.{parse_refresh_token_validity_seconds}
use saas_foundation.SignIn.Signout.{
  read_cookie, SignoutEvent, SignoutEnvironment, id_token_cookie_name, SetCookie, is_missing,
  is_text, revoke_user, revoke_token, revoke, sign_out, handler,
}

-- One of the cookies that are set has the name, the domain, no value and no age.
abbrev pub Cleared : Text → Text → List SetCookie → Type 0
Cleared name domain [] = ⊥
Cleared name domain (c ∷ cookies) =
    ((c.name ≡ name) × (c.domain ≡ domain) × (c.value ≡ []) × (c.max_age ≡ 0))
    ⊎ Cleared name domain cookies

module _ (to_lower : Text → Text) (verify : Text → ℕ → Option Text)
    (sign_out_fails : Text → Bool) where
  -- The request is a POST of JSON from the site's own origin, and the site's domain is set.
  abbrev pub Guarded : SignoutEnvironment → SignoutEvent → Text → Type 0
  Guarded env e domain =
      (env.domain ≡ some domain)
      × (length domain == 0 ≡ false)
      × (is_text e.method (text_of "POST") ≡ true)
      × (is_text e.origin (text_of "https://" ++ domain) ≡ true)
      × (starts_with (text_of "application/json") (to_lower (or_else e.content_type [])) ≡ true)

  -- The user of a valid token in the request's cookie is signed out.
  pub record SignsOut (env : SignoutEnvironment) (e : SignoutEvent) (before after : List Text)
      : Type 0 where
    pub token : Text
    pub grace : ℕ
    pub username : Text
    pub carried : read_cookie e.cookies e.cookie_header id_token_cookie_name ≡ some token
    pub window :
        parse_refresh_token_validity_seconds env.refresh_token_validity_seconds ≡ some grace
    pub verified : verify token grace ≡ some username
    pub works : sign_out_fails username ≡ false
    pub left : after ≡ username ∷ before

  revoke-SignsOut :
      (env : SignoutEnvironment) (e : SignoutEvent) (s : List Text)
      → (revoke to_lower verify sign_out_fails env e s).0 ≢ s
      → SignsOut env e s (revoke to_lower verify sign_out_fails env e s).0
  unfolding revoke
  revoke-SignsOut env e s changed =
      elim (Option-cases (read_cookie e.cookies e.cookie_header id_token_cookie_name)) [
        | inl absent ↦ absurd (changed (rw (absent, revoke) refl))
        | inr (token, carried) ↦
            elim (Option-cases
              (parse_refresh_token_validity_seconds env.refresh_token_validity_seconds)) [
                | inl bad ↦ absurd (changed (rw (carried, revoke, bad, revoke_token) refl))
                | inr (grace, window) ↦ elim (Option-cases (verify token grace)) [
                  | inl invalid ↦
                      absurd (changed (rw (carried, revoke, window, revoke_token, invalid) refl))
                  | inr (username, verified) ↦ elim (Bool-cases (sign_out_fails username)) [
                    | inl fails ↦ absurd (
                        changed (
                          rw (carried, revoke, window, revoke_token, verified, fails, revoke_user)
                            refl))
                    | inr works ↦ record {
                      token = token;
                      grace = grace;
                      username = username;
                      carried = carried;
                      window = window;
                      verified = verified;
                      works = works;
                      left =
                          rw (carried, revoke, window, revoke_token, verified, works, revoke_user)
                            refl;
                    }
                  ]
                ]
              ]
      ]

  sign_out-SignsOut :
      (env : SignoutEnvironment) (domain : Text) (e : SignoutEvent) (s : List Text)
      → (sign_out to_lower verify sign_out_fails env domain e s).0 ≢ s
      → SignsOut env e s (sign_out to_lower verify sign_out_fails env domain e s).0
  unfolding sign_out
  sign_out-SignsOut env domain e s changed =
      elim (Bool-cases (is_missing env.user_pool_id || is_missing env.client_id)) [
        | inl missing ↦ absurd (changed (rw (missing, sign_out) refl))
        | inr there ↦
            let same : (sign_out to_lower verify sign_out_fails env domain e s).0
                ≡ (revoke to_lower verify sign_out_fails env e s).0 =
              rw (there, sign_out) refl in
            rw same (revoke-SignsOut env e s (λ p. changed (same ∙ p)))
      ]

  -- Only a request that passes the guards signs a user out, and then it is the user of the valid
  -- token in the request's own cookie, and that user alone.
  pub handler_revokes :
      (env : SignoutEnvironment) (e : SignoutEvent) (s : List Text)
      → (handler to_lower verify sign_out_fails env e s).0 ≢ s
      → (domain : Text) × Guarded env e domain
        × SignsOut env e s (handler to_lower verify sign_out_fails env e s).0
  unfolding handler
  handler_revokes env e s changed = elim (Option-cases env.domain) [
    | inl unset ↦ absurd (changed (rw (unset, handler) refl))
    | inr (domain, d) ↦ elim (Bool-cases (length domain == 0)) [
      | inl empty ↦ absurd (changed (rw (d, empty, handler) refl))
      | inr full ↦ elim (Bool-cases (is_text e.method (text_of "POST"))) [
        | inr get ↦ absurd (changed (rw (d, full, get, handler) refl))
        | inl post ↦ elim (Bool-cases (is_text e.origin (text_of "https://" ++ domain))) [
          | inr foreign ↦ absurd (changed (rw (d, full, post, foreign, handler) refl))
          | inl own ↦
              elim (Bool-cases
                (starts_with (text_of "application/json") (to_lower (or_else e.content_type [])))) [
                  | inr form ↦ absurd (changed (rw (d, full, post, own, form, handler) refl))
                  | inl json ↦
                      let same : handler to_lower verify sign_out_fails env e s
                          ≡ sign_out to_lower verify sign_out_fails env domain e s =
                        rw (d, full, post, own, json, handler) refl in
                      (
                        domain,
                        (d, full, post, own, json),
                        rw same (sign_out-SignsOut env domain e s (λ p. changed (rw same p))),
                      )
                ]
        ]
      ]
    ]
  ]
