-- ===== src/Auth/Secrets.antt =====
-- Tokens and passwords: backend/src/utils/jwt.js and backend/src/utils/password.js. The signature of
-- a token, SHA-256, bcrypt and the random source are parameters.
use task.Prelude.{
  ℕ, ◌+◌, String, Option, none, some, Bool, false, ◌&&◌, List, [], ◌∷◌, if◌then◌else◌,
}
use task.Prelude.Text.{Text, codes}
use task.Http.{User}

-- The claims of a token; `email` and `role` stand in an access token, `jti` in a refresh token.
pub record Claims : Type 0 where
  pub sub : String
  pub type : String
  pub email : Option String
  pub role : Option String
  pub jti : Option String

-- What `getConfig` gives to the code modelled here.
pub record AuthConfig : Type 0 where
  pub jwt_access_secret : Text
  pub jwt_refresh_secret : Text
  pub jwt_access_expiry : String
  pub jwt_refresh_expiry : String
  pub refresh_expiry_days : ℕ
  pub bcrypt_rounds : ℕ
  pub native_hash : Bool

-- How `jwt.verify` ends: it returns the claims or throws.
pub data Verified : Type 0 where
  valid : Claims → Verified
  expired invalid : Verified

pub record Jwt : Type 0 where
  -- `jwt.sign(claims, secret, { expiresIn })`
  pub sign : Claims → Text → String → Text
  -- `jwt.verify(token, secret, { algorithms })`
  pub verify : Text → Text → List String → Verified
  -- `crypto.createHash('sha256').update(token).digest('hex')`
  pub sha256 : Text → Text
  -- The n-th `crypto.randomUUID()` of the process.
  pub random_uuid : ℕ → String

module _ (config : AuthConfig) (jwt : Jwt) where
  unfoldable pub sign_access_token : User → Text
  sign_access_token user =
      jwt.sign
        (record {
          sub = user.id;
          type = "access";
          email = some user.email;
          role = some user.role;
          jti = none;
        })
        config.jwt_access_secret config.jwt_access_expiry

  unfoldable pub sign_refresh_token : ℕ → User → Text
  sign_refresh_token n user =
      jwt.sign
        (record {
          sub = user.id;
          type = "refresh";
          email = none;
          role = none;
          jti = some (jwt.random_uuid n);
        })
        config.jwt_refresh_secret config.jwt_refresh_expiry

  unfoldable pub verify_access_token : Text → Verified
  verify_access_token token = jwt.verify token config.jwt_access_secret ("HS256" ∷ [])

  unfoldable pub verify_refresh_token : Text → Verified
  verify_refresh_token token = jwt.verify token config.jwt_refresh_secret ("HS256" ∷ [])

unfoldable pub hash_token : Jwt → Text → Text
hash_token jwt token = jwt.sha256 token

pub data Library : Type 0 where
  bcryptjs native : Library

pub record Bcrypt : Type 0 where
  pub installed : Bool
  -- `hash(plain, rounds)`, with the salt that is drawn n-th.
  pub hash : Library → ℕ → Text → ℕ → Text
  pub compare : Library → Text → Text → Bool

-- The work that a request costs: a hash or a comparison of bcrypt.
pub data Work : Type 0 where
  hashing comparing : Work

-- The state of the module: `dummyHash`, the number of salts drawn, and the work done.
pub record Vault : Type 0 where
  pub dummy_hash : Option Text
  pub salts : ℕ
  pub work : List Work

module _ (config : AuthConfig) (bcrypt : Bcrypt) where
  -- `impl()`, less the warning.
  unfoldable pub impl : Library
  impl = if config.native_hash && bcrypt.installed then native else bcryptjs

  unfoldable pub hash_password : Text → Vault → Text × Vault
  unfolding impl
  hash_password plain v = (
    bcrypt.hash impl v.salts plain config.bcrypt_rounds,
    record v { salts = v.salts + 1; work = hashing ∷ v.work },
  )

  unfoldable pub verify_password : Text → Text → Vault → Bool × Vault
  unfolding impl
  verify_password plain h v = (bcrypt.compare impl plain h, record v { work = comparing ∷ v.work })

  -- `if (!dummyHash) dummyHash = ...`; an empty hash counts as none.
  unfoldable pub dummy_of : Vault → Vault
  unfolding hash_password
  dummy_of v = elim v.dummy_hash [
    | some (x ∷ h) ↦ v
    | _ ↦
        let (h, v') = hash_password (codes "timing-equalisation-dummy") v in
        record v' { dummy_hash = some h }
  ]

  unfoldable pub fake_verify : Vault → Bool × Vault
  unfolding dummy_of
  fake_verify v = let v' = dummy_of v in (false, record v' { work = comparing ∷ v'.work })
