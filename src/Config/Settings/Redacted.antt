-- ===== src/Config/Settings/Redacted.antt =====
-- internal/config/config.go: what a log line shows of the settings.
use rojo.Base.{ℤ, Bytes, List, [], ◌∷◌, ◌≡◌, refl, bytes, is_empty, if◌then◌else◌}
use rojo.Config.Settings.{Config, resolved_provider}

-- slog.Value
pub data Attr (R : Type 0) : Type 0 where
  text : Bytes → Attr R
  int : ℤ → Attr R
  duration : ℤ → Attr R
  float : R → Attr R

unfoldable pub redacted : Bytes → Bytes
unfolding bytes
redacted secret = if is_empty secret then bytes "[unset]" else bytes "[set]"

module _ {R : Type 0} where
  unfoldable pub log_value : Config R → List (Bytes × Attr R)
  unfolding bytes redacted resolved_provider
  log_value c =
      (bytes "http_addr", text c.http_addr)
      ∷ (bytes "data_dir", text c.data_dir)
      ∷ (bytes "queue_buffer", int c.queue_buffer)
      ∷ (bytes "worker_count", int c.worker_count)
      ∷ (bytes "worktree_dir", text c.worktree_base_dir)
      ∷ (bytes "shutdown_timeout", duration c.shutdown_timeout)
      ∷ (bytes "job_timeout", duration c.job_timeout)
      ∷ (bytes "fanout_variants", int c.fanout_variants)
      ∷ (bytes "rate_limit_burst", int c.rate_limit_burst)
      ∷ (bytes "rate_limit_rps", float c.rate_limit_rps)
      ∷ (bytes "provider", text (resolved_provider c))
      ∷ (bytes "model", text c.model_id)
      ∷ (bytes "auth_token", text (redacted c.auth_token))
      ∷ (bytes "anthropic_api_key", text (redacted c.anthropic_api_key))
      ∷ (bytes "openai_api_key", text (redacted c.open_ai_api_key))
      ∷ []

  -- What is logged of the settings, and so what String prints, depends on the three secrets only
  -- through which of them are set.
  pub log_value-hides :
      (c : Config R) (token anthropic open_ai : Bytes)
      → is_empty token ≡ is_empty c.auth_token
      → is_empty anthropic ≡ is_empty c.anthropic_api_key
      → is_empty open_ai ≡ is_empty c.open_ai_api_key
      → log_value (record c {
        auth_token = token;
        anthropic_api_key = anthropic;
        open_ai_api_key = open_ai;
      })
        ≡ log_value c
  unfolding log_value
  log_value-hides c token anthropic open_ai t a o = rw (t, a, o) refl
