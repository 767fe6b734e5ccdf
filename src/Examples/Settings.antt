-- ===== src/Examples/Settings.antt =====
-- The theorems about the settings, over an environment without variables.
use rojo.Base.{ℕ, false, [], none, ◌≡◌, ◌↔◌, ◌⊎◌, refl, bytes, is_empty, trim_space, ◌==◌}
use rojo.Config.Settings.{
  Config, Platform, from_env, validate, validate_provider, resolved_provider, provider_api_key,
}
use rojo.Config.Settings.Checked.{IsUsable, validate-IsUsable}
use rojo.Config.Settings.Redacted.{log_value, log_value-hides}

abbrev bare : Platform ℕ
bare = record {
  lookup_env = λ key. none;
  atoi = λ s. none;
  parse_duration = λ s. none;
  parse_float = λ s. none;
  to_lower = λ s. s;
  five = 5;
  at_most_zero = λ n. n == 0;
  show_duration = λ n. [];
  show_float = λ n. [];
  quote = λ s. s;
}

-- The defaults are accepted, and leave the service without a provider.
defaults : validate bare (from_env bare) ≡ none
unfolding validate bytes trim_space from_env validate_provider
defaults = refl

validate-IsUsable_example :
    ((validate bare (from_env bare) ≡ none) ↔ IsUsable bare (from_env bare))
    × (validate bare (from_env bare) ≡ none
        → (resolved_provider (from_env bare) ≡ [])
          ⊎ (is_empty (provider_api_key (from_env bare)) ≡ false))
validate-IsUsable_example = validate-IsUsable bare (from_env bare)

abbrev keyed : Config ℕ
unfolding from_env bytes
keyed = record (from_env bare) { auth_token = bytes "t0"; open_ai_api_key = bytes "k0" }

same_secrets :
    (is_empty (bytes "another") ≡ is_empty keyed.auth_token)
    × (is_empty [] ≡ is_empty keyed.anthropic_api_key)
    × (is_empty (bytes "k0") ≡ is_empty keyed.open_ai_api_key)
unfolding from_env bytes
same_secrets = (refl, refl, refl)

log_value-hides_example :
    log_value (record keyed {
      auth_token = bytes "another";
      anthropic_api_key = [];
      open_ai_api_key = bytes "k0";
    })
    ≡ log_value keyed
log_value-hides_example =
    log_value-hides keyed (bytes "another") [] (bytes "k0") same_secrets.0 same_secrets.1
      same_secrets.2
