-- ===== src/Config/Secrets.antt =====
-- What a configuration that is loaded guarantees (backend/src/config/env.js).
use text.Mathlib.Text.{◌==◌}
use text.Mathlib.TextEquality.{eq_iff}
use task.Prelude.{
  ◌⊎◌, inl, inr, Bool-cases, String, Option, none, some, Bool, true, false, ◌≡◌, refl, arith,
}
use task.Config.Environment.{
  Environment, Config, loaded, hops, truthy, or_else, or_default, supabase_key_of, config_of,
  get_config, trust_proxy_of,
}

production_is_not_test : ("production" == "test") ≡ false
production_is_not_test = refl

not_both : (s : String) → (s == "production") ≡ true → (s == "test") ≡ false
not_both s e = rw ((eq_iff s "production").0 e) production_is_not_test

module _ (lower : String → String) (env : Environment) where
  config_of_sound :
      (p t : Bool) (url key : String) (access refresh : Option String) (c : Config)
      → config_of lower p t env url key access refresh ≡ loaded c
      → (c.is_production ≡ p)
        × (c.is_test ≡ t)
        × (c.supabase_key ≡ key)
        × (access ≡ some c.jwt_access_secret)
        × (refresh ≡ some c.jwt_refresh_secret)
        × (c.trust_proxy ≡ trust_proxy_of p env.trust_proxy)
  unfolding config_of
  config_of_sound p t url key access refresh c h = ground arith

  production_secrets :
      (c : Config)
      → get_config lower env ≡ loaded c
      → c.is_production ≡ true
      → (truthy env.service_role_key ≡ some c.supabase_key)
        × (truthy env.jwt_access_secret ≡ some c.jwt_access_secret)
        × (truthy env.jwt_refresh_secret ≡ some c.jwt_refresh_secret)
        × (env.trust_proxy ≡ none → c.trust_proxy ≡ hops 1)
  unfolding get_config supabase_key_of or_else trust_proxy_of config_of truthy or_default
  production_secrets c h p = ground (arith, not_both (or_default env.node_env "development"))

  no_default_secret :
      (c : Config)
      → get_config lower env ≡ loaded c
      → c.is_test ≡ false
      → (truthy env.jwt_access_secret ≡ some c.jwt_access_secret)
        × (truthy env.jwt_refresh_secret ≡ some c.jwt_refresh_secret)
  unfolding get_config supabase_key_of or_else config_of truthy or_default
  no_default_secret c h p = ground arith

  -- A configuration that is loaded outside of the tests has both JWT secrets set. In production it has
  -- the service-role key, set and not empty, and both secrets, and trusts one proxy where TRUST_PROXY is
  -- not set.
  pub get_config_sound :
      (c : Config)
      → get_config lower env ≡ loaded c
      → ((c.is_test ≡ true)
          ⊎ ((truthy env.jwt_access_secret ≡ some c.jwt_access_secret)
              × (truthy env.jwt_refresh_secret ≡ some c.jwt_refresh_secret)))
        × ((c.is_production ≡ false)
            ⊎ ((truthy env.service_role_key ≡ some c.supabase_key)
                × (truthy env.jwt_access_secret ≡ some c.jwt_access_secret)
                × (truthy env.jwt_refresh_secret ≡ some c.jwt_refresh_secret)
                × (env.trust_proxy ≡ none → c.trust_proxy ≡ hops 1)))
  get_config_sound c h = (
    elim (Bool-cases c.is_test) [ inl y ↦ inl y | inr n ↦ inr (no_default_secret c h n) ],
    elim (Bool-cases c.is_production) [ inl y ↦ inr (production_secrets c h y) | inr n ↦ inl n ],
  )
