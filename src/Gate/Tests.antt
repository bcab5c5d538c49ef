-- ===== src/Gate/Tests.antt =====
-- Tests of the middleware.
use task.Prelude.{String, none, some, false, ◌≡◌, refl, [], ◌∷◌, ◌++◌, arith}
use task.Prelude.Text.{Text, codes, text_eq}
use task.Prelude.Sorting.{All}
use task.Http.{Exception, send_error}
use task.Service.Sample.{alice}
use task.Auth.Secrets.{AuthConfig, Jwt, Claims, valid, verify_access_token, sign_access_token}
use task.Gate.Middleware.{
  Identity, Gate, admitted, cut_space, scheme_and_token, admit, check_token, authenticate,
  authorize,
}
use task.Gate.Admission.{authenticate_sound, authenticate-sign_access_token}

abbrev claims : Claims
claims = record {
  sub = "alice";
  type = "access";
  email = some "a@x";
  role = some "USER";
  jti = none;
}

abbrev config : AuthConfig
config = record {
  jwt_access_secret = codes "a";
  jwt_refresh_secret = codes "r";
  jwt_access_expiry = "15m";
  jwt_refresh_expiry = "7d";
  refresh_expiry_days = 7;
  bcrypt_rounds = 12;
  native_hash = false;
}

-- A library that knows one token.
abbrev jwt : Jwt
jwt = record {
  sign = λ c secret expiry. codes "tok";
  verify = λ token secret algorithms. valid claims;
  sha256 = λ t. t;
  random_uuid = λ n. "u";
}

abbrev who : Identity
who = record { id = "alice"; email = some "a@x"; role = some "USER" }

let_in : authenticate {R = Unit} config jwt (some (codes "Bearer tok x")) ≡ admitted who
unfolding authenticate check_token scheme_and_token cut_space admit text_eq verify_access_token
let_in = refl

administrators_only :
    authorize {R = Unit} ("ADMIN" ∷ []) (some who)
    ≡ Gate.ended (send_error "Insufficient permissions" [] 403)
unfolding authorize
administrators_only = refl

authenticate_sound_example :
    (header : Text) × (token : Text) × (c : Claims) × (some (codes "Bearer tok x") ≡ some header)
    × (scheme_and_token header ≡ (codes "Bearer", some token))
    × (verify_access_token config jwt token ≡ valid c)
    × (who ≡ record { id = c.sub; email = c.email; role = c.role })
authenticate_sound_example =
    authenticate_sound {R = Unit} config jwt (some (codes "Bearer tok x")) who let_in

abbrev failure_of : String → Exception
failure_of m = record { message = m; status_code = none; errors = [] }

tok_spaceless : All (λ x. ¬ (x ≡ 32)) (codes "tok")
tok_spaceless = ((λ e. ground arith), ((λ e. ground arith), ((λ e. ground arith), tt)))

authenticate-sign_access_token_example :
    authenticate {R = Unit} config jwt
      (some (codes "Bearer" ++ 32 ∷ sign_access_token config jwt alice))
    ≡ admitted (record { id = alice.id; email = some alice.email; role = some alice.role })
unfolding sign_access_token
authenticate-sign_access_token_example =
    authenticate-sign_access_token {R = Unit} config jwt alice 116 (codes "ok") refl tok_spaceless
      refl
