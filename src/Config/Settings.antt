-- ===== src/Config/Settings.antt =====
-- internal/config/config.go: the settings of the service, from the environment.
pub mod Checked
pub mod Redacted
pub mod Bound
use rojo.Base.{
  ℕ, ℤ, pos, negsuc, is_pos, show_int, Bytes, Bool, true, false, not, ◌||◌, ◌&&◌, List, [], ◌∷◌,
  ◌++◌, Option, none, some, bytes, bytes_eq, is_empty, any, trim_space, if◌then◌else◌,
}
use rojo.Errors.{Error, plain, Result, ok, err}

-- Config; a time.Duration is a number of nanoseconds, and `R` are the floating-point numbers.
pub record Config (R : Type 0) : Type 0 where
  pub http_addr : Bytes
  pub data_dir : Bytes
  pub queue_buffer : ℤ
  pub worker_count : ℤ
  pub worktree_base_dir : Bytes
  pub shutdown_timeout : ℤ
  pub job_timeout : ℤ
  pub fanout_variants : ℤ
  pub anthropic_api_key : Bytes
  pub open_ai_api_key : Bytes
  pub provider : Bytes
  pub model_id : Bytes
  pub auth_token : Bytes
  pub rate_limit_burst : ℤ
  pub rate_limit_rps : R
  pub trust_proxy_header : Bool

-- What Load and Validate call of os, strconv, time, strings and fmt.
pub record Platform (R : Type 0) : Type 0 where
  pub lookup_env : Bytes → Option Bytes
  pub atoi : Bytes → Option ℤ
  pub parse_duration : Bytes → Option ℤ
  pub parse_float : Bytes → Option R
  pub to_lower : Bytes → Bytes
  pub five : R
  pub at_most_zero : R → Bool
  pub show_duration : ℤ → Bytes
  pub show_float : R → Bytes
  pub quote : Bytes → Bytes

abbrev pub provider_anthropic : Bytes
unfolding bytes
provider_anthropic = bytes "anthropic"

abbrev pub provider_open_ai : Bytes
unfolding bytes
provider_open_ai = bytes "openai"

unfoldable pub is_provider : Bytes → Bool
unfolding bytes
is_provider p = bytes_eq p provider_anthropic || bytes_eq p provider_open_ai

abbrev pub default_http_addr : Bytes
unfolding bytes
default_http_addr = bytes "127.0.0.1:8080"

-- An integer that must be positive; the text is that of fmt.Errorf.
unfoldable pub must_be_positive : ℤ → Bytes → Bytes → Bytes → Option Error → Option Error
must_be_positive n shown before after rest =
    if is_pos n then rest else some (plain (before ++ (shown ++ after)))

module _ {R : Type 0} where
  unfoldable pub resolved_provider : Config R → Bytes
  unfolding is_provider bytes
  resolved_provider c =
      if is_provider c.provider
      then c.provider
      else if not (is_empty c.anthropic_api_key)
      then provider_anthropic
      else if not (is_empty c.open_ai_api_key)
      then provider_open_ai
      else []

  unfoldable pub provider_api_key : Config R → Bytes
  unfolding resolved_provider bytes
  provider_api_key c =
      let p = resolved_provider c in
      if bytes_eq p provider_anthropic
      then c.anthropic_api_key
      else if bytes_eq p provider_open_ai
      then c.open_ai_api_key
      else []

  module _ (p : Platform R) where
    -- The part of Validate about the provider.
    unfoldable pub validate_provider : Config R → Option Error
    unfolding is_provider provider_api_key bytes
    validate_provider c =
        if not (is_empty c.provider || is_provider c.provider)
        then some (
            plain (
              bytes "ROJO_PROVIDER must be "
              ++ (p.quote provider_anthropic
                  ++ (bytes " or "
                      ++ (p.quote provider_open_ai ++ (bytes ", got " ++ p.quote c.provider))))))
        else if not (is_empty c.provider) && is_empty (provider_api_key c)
        then some
            (plain (bytes "ROJO_PROVIDER=" ++ (c.provider ++ bytes " but its API key is not set")))
        else none

    unfoldable pub validate_limits : Config R → Option Error
    unfolding must_be_positive show_int bytes
    validate_limits c =
        must_be_positive c.rate_limit_burst (show_int c.rate_limit_burst)
          (bytes "ROJO_RATE_LIMIT_BURST must be positive, got ")
          (bytes " (zero refuses every request)")
          (if p.at_most_zero c.rate_limit_rps
            then some (
                plain (
                  bytes "ROJO_RATE_LIMIT_RPS must be positive, got "
                  ++ (p.show_float c.rate_limit_rps ++ bytes " (zero never refills the bucket)")))
            else must_be_positive c.job_timeout (p.show_duration c.job_timeout)
                (bytes "ROJO_JOB_TIMEOUT must be positive, got ") []
                (must_be_positive c.fanout_variants (show_int c.fanout_variants)
                  (bytes "ROJO_FANOUT_VARIANTS must be at least 1, got ") [] (validate_provider c)))

    unfoldable pub validate : Config R → Option Error
    unfolding must_be_positive show_int validate_limits bytes
    validate c =
        if is_empty c.http_addr
        then some (plain (bytes "ROJO_HTTP_ADDR must not be empty"))
        else if is_empty c.data_dir
        then some (plain (bytes "ROJO_DATA_DIR must not be empty"))
        else must_be_positive c.queue_buffer (show_int c.queue_buffer)
            (bytes "ROJO_QUEUE_BUFFER must be positive, got ") []
            (must_be_positive c.worker_count (show_int c.worker_count)
              (bytes "ROJO_WORKER_COUNT must be positive, got ") []
              (must_be_positive c.shutdown_timeout (p.show_duration c.shutdown_timeout)
                (bytes "ROJO_SHUTDOWN_TIMEOUT must be positive, got ") [] (validate_limits c)))

    -- A variable that is set and not empty.
    unfoldable pub set_env : Bytes → Option Bytes
    set_env key = elim (p.lookup_env key) [
      | none ↦ none
      | some v ↦ if is_empty v then none else some v
    ]

    unfoldable pub get_env : Bytes → Bytes → Bytes
    unfolding set_env
    get_env key fallback = elim (set_env key) [ none ↦ fallback | some v ↦ v ]

    -- getEnvInt, getEnvDuration and getEnvFloat, by their parsers.
    unfoldable pub get_env_by : {A : Type 0} → (Bytes → Option A) → Bytes → A → A
    unfolding set_env
    get_env_by parse key fallback = elim (set_env key) [
      | none ↦ fallback
      | some v ↦ elim (parse v) [ none ↦ fallback | some a ↦ a ]
    ]

    unfoldable pub get_env_bool : Bytes → Bool → Bool
    unfolding set_env bytes
    get_env_bool key fallback = elim (set_env key) [
      | none ↦ fallback
      | some v ↦
          let word = p.to_lower (trim_space v) in
          if any (bytes_eq word) (
            bytes "1"
            ∷ bytes "t"
            ∷ bytes "true"
            ∷ bytes "on"
            ∷ bytes "yes"
            ∷ bytes "y"
            ∷ bytes "enable"
            ∷ bytes "enabled"
            ∷ [])
          then true
          else if any (bytes_eq word) (
              bytes "0"
              ∷ bytes "f"
              ∷ bytes "false"
              ∷ bytes "off"
              ∷ bytes "no"
              ∷ bytes "n"
              ∷ bytes "disable"
              ∷ bytes "disabled"
              ∷ [])
          then false
          else fallback
    ]

    -- os.Getenv
    unfoldable pub raw_env : Bytes → Bytes
    raw_env key = elim (p.lookup_env key) [ none ↦ [] | some v ↦ v ]

    unfoldable pub from_env : Config R
    unfolding bytes get_env get_env_by get_env_bool raw_env
    from_env = record {
      http_addr = get_env (bytes "ROJO_HTTP_ADDR") default_http_addr;
      data_dir = get_env (bytes "ROJO_DATA_DIR") (bytes "./rojo-data");
      queue_buffer = get_env_by p.atoi (bytes "ROJO_QUEUE_BUFFER") (pos 64);
      worker_count = get_env_by p.atoi (bytes "ROJO_WORKER_COUNT") (pos 4);
      worktree_base_dir = get_env (bytes "ROJO_WORKTREE_DIR") (bytes "/tmp/rojo-worktrees");
      shutdown_timeout =
          get_env_by p.parse_duration (bytes "ROJO_SHUTDOWN_TIMEOUT") (pos 15000000000);
      job_timeout = get_env_by p.parse_duration (bytes "ROJO_JOB_TIMEOUT") (pos 1800000000000);
      fanout_variants = get_env_by p.atoi (bytes "ROJO_FANOUT_VARIANTS") (pos 1);
      anthropic_api_key = raw_env (bytes "ANTHROPIC_API_KEY");
      open_ai_api_key = raw_env (bytes "OPENAI_API_KEY");
      provider = p.to_lower (trim_space (get_env (bytes "ROJO_PROVIDER") []));
      model_id = get_env (bytes "ROJO_MODEL") [];
      auth_token = raw_env (bytes "ROJO_AUTH_TOKEN");
      rate_limit_burst = get_env_by p.atoi (bytes "ROJO_RATE_LIMIT_BURST") (pos 30);
      rate_limit_rps = get_env_by p.parse_float (bytes "ROJO_RATE_LIMIT_RPS") p.five;
      trust_proxy_header = get_env_bool (bytes "ROJO_TRUST_PROXY_HEADER") false;
    }

    -- Load
    unfoldable pub load : Result (Config R)
    unfolding from_env validate
    load = elim (validate from_env) [ none ↦ ok from_env | some e ↦ err e ]
