-- ===== src/Config/Settings/Bound.antt =====
-- internal/config/config.go: whether the service listens beyond its machine.
use rojo.Base.{
  Bytes, Bool, Bool-cases, true, false, not, Option, none, some, ◌≡◌, ◌↔◌, ◌⊎◌, refl, ap, ◌∙◌, inl,
  inr, arith, found, bytes, bytes_eq, eq_of_bytes_eq, bytes_eq_self, is_empty, if◌then◌else◌,
}
use rojo.Config.Settings.{Config}

-- net.SplitHostPort as far as its host goes, and net.ParseIP with two tests on an address `I`.
pub record Net (I : Type 0) : Type 0 where
  pub split_host : Bytes → Option Bytes
  pub parse_ip : Bytes → Option I
  pub is_unspecified : I → Bool
  pub is_loopback : I → Bool

module _ {I : Type 0} (net : Net I) where
  unfoldable pub host_is_public : Bytes → Bool
  unfolding bytes
  host_is_public host =
      if is_empty host
      then true
      else if bytes_eq host (bytes "localhost")
      then false
      else elim (net.parse_ip host) [
        | none ↦ true
        | some ip ↦ if net.is_unspecified ip then true else not (net.is_loopback ip)
      ]

  unfoldable pub is_publicly_bound : {R : Type 0} → Config R → Bool
  unfolding host_is_public
  is_publicly_bound c = elim (net.split_host c.http_addr) [
    | none ↦ true
    | some host ↦ host_is_public host
  ]

  -- An address on which only this machine can reach the service.
  abbrev pub IsLocal : Bytes → Type 0
  unfolding bytes
  IsLocal addr =
      (host : Bytes) × (net.split_host addr ≡ some host)
      × (is_empty host ≡ false)
      × ((host ≡ bytes "localhost")
          ⊎ ((ip : I) × (net.parse_ip host ≡ some ip)
              × (net.is_unspecified ip ≡ false)
              × (net.is_loopback ip ≡ true)))

  host_local :
      (host : Bytes)
      → host_is_public host ≡ false
      → (is_empty host ≡ false)
        × ((host ≡ bytes "localhost")
            ⊎ ((ip : I) × (net.parse_ip host ≡ some ip)
                × (net.is_unspecified ip ≡ false)
                × (net.is_loopback ip ≡ true)))
  unfolding host_is_public
  host_local host h = elim (Bool-cases (is_empty host)) [
    | inl e ↦ absurd (let x : true ≡ false = rw e at h in cc)
    | inr e ↦ (
      e,
      elim (Bool-cases (bytes_eq host (bytes "localhost"))) [
        | inl f ↦ inl (eq_of_bytes_eq host (bytes "localhost") f)
        | inr f ↦ elim (found (net.parse_ip host)) [
          | inl g ↦ absurd (ground arith)
          | inr (ip, g) ↦ inr (ip, g, ground arith, ground arith)
        ]
      ],
    )
  ]

  local_host :
      (host : Bytes)
      → is_empty host ≡ false
      → (host ≡ bytes "localhost")
        ⊎ ((ip : I) × (net.parse_ip host ≡ some ip)
            × (net.is_unspecified ip ≡ false)
            × (net.is_loopback ip ≡ true))
      → host_is_public host ≡ false
  unfolding host_is_public
  local_host host e (inl f) =
      let g : bytes_eq host (bytes "localhost") ≡ true =
        ap (λ s. bytes_eq s (bytes "localhost")) f ∙ bytes_eq_self (bytes "localhost") in
      rw (e, g) refl
  local_host host e (inr (ip, g, u, l)) = elim (Bool-cases (bytes_eq host (bytes "localhost"))) [
    | inl f ↦ rw (e, f) refl
    | inr f ↦ rw (e, f, g, u, l) refl
  ]

  -- The service counts as publicly bound unless its address has a host that is "localhost" or a
  -- loopback address that is not the unspecified one; what cannot be read counts as public.
  pub is_publicly_bound_lem :
      {R : Type 0} (c : Config R) → (is_publicly_bound c ≡ false) ↔ IsLocal c.http_addr
  unfolding is_publicly_bound bytes
  is_publicly_bound_lem c = (
    λ h. elim (found (net.split_host c.http_addr)) [
      | inl e ↦ absurd (let x : true ≡ false = rw (is_publicly_bound, e) at h in cc)
      | inr (host, e) ↦
          let (n, m) = host_local host (rw (is_publicly_bound, e) at h) in (host, e, n, m)
    ],
    λ l. let (host, e, n, m) = l in rw (is_publicly_bound, e) (local_host host n m),
  )
