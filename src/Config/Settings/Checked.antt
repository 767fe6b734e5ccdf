-- ===== src/Config/Settings/Checked.antt =====
-- About Validate of internal/config/config.go.
use rojo.Base.{
  is_pos, Bytes, Bool-cases, true, false, [], ◌∷◌, none, ◌≡◌, ap, ◌∙◌, ◌↔◌, ◌⊎◌, refl, inl, inr,
  arith, bytes, bytes_eq, eq_of_bytes_eq, bytes_eq_self, is_empty,
}
use rojo.Config.Settings.{
  Config, Platform, validate, validate_limits, validate_provider, must_be_positive,
  resolved_provider, provider_api_key, is_provider, provider_anthropic, provider_open_ai,
}

module _ {R : Type 0} (p : Platform R) where
  -- A provider that is named is one of the two, with its key.
  abbrev IsChosen : Config R → Type 0
  IsChosen c =
      (c.provider ≡ [])
      ⊎ ((c.provider ≡ provider_anthropic) × (is_empty c.anthropic_api_key ≡ false))
      ⊎ ((c.provider ≡ provider_open_ai) × (is_empty c.open_ai_api_key ≡ false))

  -- Settings that the service can run with.
  pub record IsUsable (c : Config R) : Type 0 where
    pub address : is_empty c.http_addr ≡ false
    pub data_at : is_empty c.data_dir ≡ false
    pub queue : is_pos c.queue_buffer ≡ true
    pub workers : is_pos c.worker_count ≡ true
    pub shutdown : is_pos c.shutdown_timeout ≡ true
    pub burst : is_pos c.rate_limit_burst ≡ true
    pub rate : p.at_most_zero c.rate_limit_rps ≡ false
    pub timeout : is_pos c.job_timeout ≡ true
    pub variants : is_pos c.fanout_variants ≡ true
    pub chosen : IsChosen c

  named_empty : (s : Bytes) → is_empty s ≡ true → s ≡ []
  named_empty [] h = refl
  named_empty (b ∷ s) h = cc

  apart_providers : bytes_eq provider_open_ai provider_anthropic ≡ false
  unfolding bytes bytes_eq
  apart_providers = refl

  unnamed : (bytes_eq [] provider_anthropic ≡ false) × (bytes_eq [] provider_open_ai ≡ false)
  unfolding bytes bytes_eq
  unnamed = (refl, refl)

  provider-IsChosen : (c : Config R) → validate_provider p c ≡ none → IsChosen c
  unfolding validate_provider is_provider bytes
  provider-IsChosen c h = elim (Bool-cases (is_empty c.provider)) [
    | inl e ↦ inl (named_empty c.provider e)
    | inr e ↦ elim (Bool-cases (bytes_eq c.provider provider_anthropic)) [
      | inl a ↦ inr (inl (eq_of_bytes_eq c.provider provider_anthropic a, ground arith))
      | inr n ↦ elim (Bool-cases (bytes_eq c.provider provider_open_ai)) [
        | inl o ↦ inr (inr (eq_of_bytes_eq c.provider provider_open_ai o, ground arith))
        | inr m ↦ absurd (ground arith)
      ]
    ]
  ]

  chosen-provider : (c : Config R) → IsChosen c → validate_provider p c ≡ none
  unfolding validate_provider is_provider bytes
  chosen-provider c (inl e) =
      let f : is_empty c.provider ≡ true = ap is_empty e in rw (validate_provider, f) refl
  chosen-provider c (inr (inl (e, k))) =
      let f : is_empty c.provider ≡ false = ap is_empty e in
      let a : bytes_eq c.provider provider_anthropic ≡ true =
        ap (λ s. bytes_eq s provider_anthropic) e ∙ bytes_eq_self provider_anthropic in
      ground arith
  chosen-provider c (inr (inr (e, k))) =
      let f : is_empty c.provider ≡ false = ap is_empty e in
      let n : bytes_eq c.provider provider_anthropic ≡ false =
        ap (λ s. bytes_eq s provider_anthropic) e ∙ apart_providers in
      let o : bytes_eq c.provider provider_open_ai ≡ true =
        ap (λ s. bytes_eq s provider_open_ai) e ∙ bytes_eq_self provider_open_ai in
      ground arith

  limits-usable :
      (c : Config R)
      → validate_limits p c ≡ none
      → (is_pos c.rate_limit_burst ≡ true)
        × (p.at_most_zero c.rate_limit_rps ≡ false)
        × (is_pos c.job_timeout ≡ true)
        × (is_pos c.fanout_variants ≡ true)
        × (validate_provider p c ≡ none)
  unfolding validate_limits must_be_positive
  limits-usable c h = (ground arith, ground arith, ground arith, ground arith, ground arith)

  usable-limits :
      (c : Config R)
      → is_pos c.rate_limit_burst ≡ true
      → p.at_most_zero c.rate_limit_rps ≡ false
      → is_pos c.job_timeout ≡ true
      → is_pos c.fanout_variants ≡ true
      → validate_limits p c ≡ validate_provider p c
  unfolding validate_limits must_be_positive
  usable-limits c a b d e = rw (a, b, d, e) refl

  chosen-keyed :
      (c : Config R)
      → IsChosen c
      → (resolved_provider c ≡ []) ⊎ (is_empty (provider_api_key c) ≡ false)
  unfolding provider_api_key resolved_provider is_provider bytes
  chosen-keyed c (inl e) =
      let n : bytes_eq c.provider provider_anthropic ≡ false =
        ap (λ s. bytes_eq s provider_anthropic) e ∙ unnamed.0 in
      let m : bytes_eq c.provider provider_open_ai ≡ false =
        ap (λ s. bytes_eq s provider_open_ai) e ∙ unnamed.1 in
      let a = bytes_eq_self provider_anthropic in
      let o = bytes_eq_self provider_open_ai in
      let x = apart_providers in
      elim (Bool-cases (is_empty c.anthropic_api_key)) [
        | inr k ↦ inr (ground arith)
        | inl k ↦ elim (Bool-cases (is_empty c.open_ai_api_key)) [
          | inr l ↦ inr (ground arith)
          | inl l ↦ inl (ground arith)
        ]
      ]
  chosen-keyed c (inr (inl (e, k))) =
      let a : bytes_eq c.provider provider_anthropic ≡ true =
        ap (λ s. bytes_eq s provider_anthropic) e ∙ bytes_eq_self provider_anthropic in
      inr (ground arith)
  chosen-keyed c (inr (inr (e, k))) =
      let n : bytes_eq c.provider provider_anthropic ≡ false =
        ap (λ s. bytes_eq s provider_anthropic) e ∙ apart_providers in
      let o : bytes_eq c.provider provider_open_ai ≡ true =
        ap (λ s. bytes_eq s provider_open_ai) e ∙ bytes_eq_self provider_open_ai in
      inr (ground arith)

  -- Validate accepts exactly the settings that the service can run with, and the provider that they
  -- then resolve to, if there is one, has its key.
  pub validate-IsUsable :
      (c : Config R)
      → ((validate p c ≡ none) ↔ IsUsable c)
        × (validate p c ≡ none
            → (resolved_provider c ≡ []) ⊎ (is_empty (provider_api_key c) ≡ false))
  unfolding validate must_be_positive
  validate-IsUsable c = (
    (
      λ h.
          let l : validate_limits p c ≡ none = ground arith in
          let (a, b, d, e, f) = limits-usable c l in
          record {
            address = ground arith;
            data_at = ground arith;
            queue = ground arith;
            workers = ground arith;
            shutdown = ground arith;
            burst = a;
            rate = b;
            timeout = d;
            variants = e;
            chosen = provider-IsChosen c f;
          },
      λ u.
          rw (u.address, u.data_at, u.queue, u.workers, u.shutdown)
            (usable-limits c u.burst u.rate u.timeout u.variants ∙ chosen-provider c u.chosen),
    ),
    λ h.
        let l : validate_limits p c ≡ none = ground arith in
        chosen-keyed c (provider-IsChosen c (limits-usable c l).4),
  )
