-- ===== src/Gate/Admission.antt =====
-- Who is let in by the middleware, and what an error tells (backend/src/middleware).
use task.Prelude.{
  ℕ, Option, none, some, true, ◌≡◌, inl, inr, refl, [], ◌∷◌, ◌++◌, arith, Bool-cases,
}
use task.Prelude.Text.{Text, codes, text_eq, text_eq_iff}
use task.Prelude.Sorting.{All}
use task.Http.{User, Exception, send_error}
use task.Auth.Secrets.{
  AuthConfig, Jwt, Claims, Verified, valid, expired, invalid, verify_access_token,
  sign_access_token,
}
use task.Gate.Middleware.{
  Identity, admitted, cut_space, scheme_and_token, admit, check_token, authenticate, status_code_of,
  error_handler,
}

cut_space-append :
    (word rest : Text)
    → All (λ c. ¬ (c ≡ 32)) word
    → cut_space (word ++ 32 ∷ rest) ≡ (word, some rest)
unfolding cut_space
cut_space-append [] rest h = refl
cut_space-append (c ∷ word) rest h = ground (arith, cut_space-append word rest h.1)

cut_space-whole : (word : Text) → All (λ c. ¬ (c ≡ 32)) word → cut_space word ≡ (word, none)
unfolding cut_space
cut_space-whole [] h = refl
cut_space-whole (c ∷ word) h = ground (arith, cut_space-whole word h.1)

abbrev pub access_claims : User → Claims
access_claims user = record {
  sub = user.id;
  type = "access";
  email = some user.email;
  role = some user.role;
  jti = none;
}

module _ {R : Type 0} (config : AuthConfig) (jwt : Jwt) where
  admit_lem :
      (v : Verified) (who : Identity)
      → admit {R = R} v ≡ admitted who
      → (claims : Claims) × (v ≡ valid claims)
        × (who ≡ record { id = claims.sub; email = claims.email; role = claims.role })
  unfolding admit
  admit_lem (valid claims) who h = (claims, refl, ground arith)
  admit_lem expired who h = absurd (ground arith)
  admit_lem invalid who h = absurd (ground arith)

  check_token_lem :
      (parts : Text × Option Text) (who : Identity)
      → check_token {R = R} config jwt parts ≡ admitted who
      → (token : Text) × (claims : Claims) × (parts ≡ (codes "Bearer", some token))
        × (verify_access_token config jwt token ≡ valid claims)
        × (who ≡ record { id = claims.sub; email = claims.email; role = claims.role })
  unfolding check_token
  check_token_lem (scheme, none) who h = absurd (ground arith)
  check_token_lem (scheme, some []) who h = absurd (ground arith)
  check_token_lem (scheme, some (c ∷ cs)) who h =
      elim (Bool-cases (text_eq scheme (codes "Bearer"))) [
        | inl y ↦
            let (claims, v, w) =
              admit_lem (verify_access_token config jwt (c ∷ cs)) who (ground arith) in
            (c ∷ cs, claims, ground (arith, text_eq_iff scheme (codes "Bearer")), v, w)
        | inr n ↦ absurd (ground arith)
      ]

  -- A request is let in only with an Authorization header of the scheme Bearer whose token is verified, and as the
  -- user that the token's claims name.
  pub authenticate_sound :
      (authorization : Option Text) (who : Identity)
      → authenticate {R = R} config jwt authorization ≡ admitted who
      → (header : Text) × (token : Text) × (claims : Claims) × (authorization ≡ some header)
        × (scheme_and_token header ≡ (codes "Bearer", some token))
        × (verify_access_token config jwt token ≡ valid claims)
        × (who ≡ record { id = claims.sub; email = claims.email; role = claims.role })
  unfolding authenticate
  authenticate_sound none who h = absurd (ground arith)
  authenticate_sound (some header) who h =
      let (token, claims, e, v, w) = check_token_lem (scheme_and_token header) who h in
      (header, token, claims, refl, e, v, w)

  -- The access token that a log-in gives for a user lets the user in, with the same id, email and
  -- role, if the library verifies what it signed for the user and the token has no space and is not empty.
  pub authenticate-sign_access_token :
      (user : User) (c : ℕ) (rest : Text)
      → sign_access_token config jwt user ≡ c ∷ rest
      → All (λ x. ¬ (x ≡ 32)) (c ∷ rest)
      → jwt.verify
          (jwt.sign (access_claims user) config.jwt_access_secret config.jwt_access_expiry)
          config.jwt_access_secret
          ("HS256" ∷ [])
        ≡ valid (access_claims user)
      → authenticate {R = R} config jwt
          (some (codes "Bearer" ++ 32 ∷ sign_access_token config jwt user))
        ≡ admitted (record { id = user.id; email = some user.email; role = some user.role })
  unfolding authenticate scheme_and_token check_token sign_access_token verify_access_token
      cut_space admit text_eq
  authenticate-sign_access_token user c rest e spaceless works =
      ground (arith, cut_space-whole (c ∷ rest) spaceless, works)

-- In production an error without a status of its own, or with the status 500, is answered by the
-- same message whatever its own message is.
error_handler-opaque :
    {R : Type 0} (err other : Exception)
    → status_code_of err ≡ 500
    → status_code_of other ≡ 500
    → err.errors ≡ other.errors
    → (error_handler {R = R} true err ≡ error_handler true other)
      × (error_handler {R = R} true err ≡ send_error "An unexpected error occurred" err.errors 500)
unfolding error_handler
error_handler-opaque err other s t e = ground arith
