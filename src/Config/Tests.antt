-- ===== src/Config/Tests.antt =====
-- Tests of the configuration.
use task.Prelude.{◌⊎◌, none, some, true, false, ◌≡◌, refl}
use task.Config.Environment.{
  Environment, Config, loaded, hops, flag, truthy, or_else, or_default, supabase_key_of, config_of,
  get_config, trust_proxy_of, is_number, number_of,
}
use task.Config.Settings.{int_or, parse_int, digits_of, plus, minus}
use task.Forms.Trim.{trim_start, is_space}
use task.Config.Secrets.{get_config_sound}

abbrev environment : Environment
environment = record {
  node_env = some "production";
  supabase_url = some "u";
  service_role_key = some "s";
  anon_key = some "a";
  jwt_access_secret = some "x";
  jwt_refresh_secret = some "y";
  trust_proxy = none;
  service_role = none;
  audit_hmac_key = none;
}

abbrev config : Config
config = record {
  is_production = true;
  is_test = false;
  trust_proxy = hops 1;
  service_role = "all";
  supabase_url = "u";
  supabase_key = "s";
  jwt_access_secret = "x";
  jwt_refresh_secret = "y";
  audit_hmac_key = none;
}

loads : get_config (λ s. s) environment ≡ loaded config
unfolding get_config supabase_key_of or_else trust_proxy_of config_of truthy or_default
loads = refl

two_hops : trust_proxy_of true (some "12") ≡ hops 12
unfolding trust_proxy_of is_number number_of
two_hops = refl

not_trusted : trust_proxy_of true (some "false") ≡ flag false
unfolding trust_proxy_of is_number
not_trusted = refl

get_config_sound_example :
    ((config.is_test ≡ true)
      ⊎ ((truthy environment.jwt_access_secret ≡ some config.jwt_access_secret)
          × (truthy environment.jwt_refresh_secret ≡ some config.jwt_refresh_secret)))
    × ((config.is_production ≡ false)
        ⊎ ((truthy environment.service_role_key ≡ some config.supabase_key)
            × (truthy environment.jwt_access_secret ≡ some config.jwt_access_secret)
            × (truthy environment.jwt_refresh_secret ≡ some config.jwt_refresh_secret)
            × (environment.trust_proxy ≡ none → config.trust_proxy ≡ hops 1)))
get_config_sound_example = get_config_sound (λ s. s) environment config loads

-- Blanks and what follows the digits are skipped, and zero gives the default.
parsed_ints :
    (int_or (some " 42ms") 10 ≡ plus 42)
    × (int_or (some "-3") 10 ≡ minus 2)
    × (int_or (some "0") 10 ≡ plus 10)
    × (int_or (some "max") 10 ≡ plus 10)
unfolding int_or parse_int digits_of trim_start is_space
parsed_ints = (refl, refl, refl, refl)
