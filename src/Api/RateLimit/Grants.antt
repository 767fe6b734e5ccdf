-- ===== src/Api/RateLimit/Grants.antt =====
-- About internal/api/ratelimit.go and auth.go: how many requests a bucket lets through, and who passes.
use rojo.Base.{
  ℕ, ◌+◌, ◌-◌, ◌*◌, ◌≤◌, Bytes, Bool-cases, true, false, not, ◌||◌, List, [], ◌∷◌, ◌++◌, ◌≡◌, refl,
  ap, ◌∙◌, ◌↔◌, ◌⊎◌, inl, inr, arith, bytes, bytes_eq, bytes_eq_self, eq_of_bytes_eq, has_prefix,
  trim_prefix, length, drop, if◌then◌else◌,
}
use rojo.Api.RateLimit.{
  Bucket, Limits, full, refill, allow, new_bucket, passed, token_auth, health_path,
}

-- One call of allow for each time, from the first on: the number of calls that were let through.
pub grants : Limits → Bucket → List ℕ → ℕ × Bucket
grants l b [] = (0, b)
grants l b (now ∷ times) =
    let (allowed, b1) = allow l b now in
    let (n, b2) = grants l b1 times in (if allowed then n + 1 else n, b2)

-- The times do not go back.
abbrev pub Ascends : ℕ → List ℕ → Type 0
Ascends t [] = Unit
Ascends t (now ∷ times) = (t ≤ now) × Ascends now times

elapsed : (a b r : ℕ) → a ≤ b → (b - a) * r + a * r ≡ b * r
elapsed a b r h = grind arith

allow_spends :
    (l : Limits) (b : Bucket) (now : ℕ)
    → b.last ≤ now
    → ((allow l b now).1.last ≡ now)
      × ((if (allow l b now).0 then l.unit else 0) + (allow l b now).1.tokens + b.last * l.rate
          ≤ b.tokens + now * l.rate)
      × ((allow l b now).1.tokens ≤ full l)
unfolding allow refill
allow_spends l b now h = let e = elapsed b.last now l.rate h in ground (arith, e)

suc_times : (n u : ℕ) → (n + 1) * u ≡ n * u + u
suc_times n u = grind arith

grants_spend :
    (l : Limits) (b : Bucket) (times : List ℕ)
    → Ascends b.last times
    → b.last ≤ (grants l b times).1.last
      × ((grants l b times).0 * l.unit + (grants l b times).1.tokens + b.last * l.rate
          ≤ b.tokens + (grants l b times).1.last * l.rate)
unfolding grants
grants_spend l b [] h = omega arith
grants_spend l b (now ∷ times) (h, hs) =
    let (at, spent, capped) = allow_spends l b now h in
    let (later, rest) = grants_spend l (allow l b now).1 times (rw at hs) in
    let before : (allow l b now).1.last * l.rate ≡ now * l.rate = rw at refl in
    let grown = suc_times (grants l (allow l b now).1 times).0 l.unit in
    elim (Bool-cases (allow l b now).0) [
      | inl e ↦
          let s : l.unit + (allow l b now).1.tokens + b.last * l.rate ≤ b.tokens + now * l.rate =
            rw e at spent in
          rw e (omega arith, omega arith)
      | inr e ↦
          let s : 0 + (allow l b now).1.tokens + b.last * l.rate ≤ b.tokens + now * l.rate =
            rw e at spent in
          rw e (omega arith, omega arith)
    ]

-- A fresh bucket lets through, up to any later request, at most its capacity and what is refilled
-- since: each request costs a whole token, and only time brings tokens.
pub grants_bound :
    (l : Limits) (t : ℕ) (times : List ℕ)
    → Ascends t times
    → (grants l (new_bucket l t) times).0 * l.unit
      ≤ l.capacity * l.unit + ((grants l (new_bucket l t) times).1.last - t) * l.rate
unfolding new_bucket
grants_bound l t times h =
    let (later, spent) = grants_spend l (new_bucket l t) times h in
    let e = elapsed t (grants l (new_bucket l t) times).1.last l.rate later in omega (arith, e)

prefix_split : (s p : Bytes) → has_prefix s p ≡ true → s ≡ p ++ drop (length p) s
unfolding has_prefix
prefix_split s [] h = refl
prefix_split [] (c ∷ p) h = ground arith
prefix_split (b ∷ s) (c ∷ p) h = ground (arith, prefix_split s p)

trim_bearer : (t : Bytes) → trim_prefix (bytes "Bearer " ++ t) (bytes "Bearer ") ≡ t
unfolding trim_prefix has_prefix bytes
trim_bearer t = refl

longer : (t : Bytes) → bytes_eq t (bytes "Bearer " ++ t) ≡ false
unfolding bytes
longer t = elim (Bool-cases (bytes_eq t (bytes "Bearer " ++ t))) [
  | inl e ↦
      let same = ap length (eq_of_bytes_eq t (bytes "Bearer " ++ t) e) in
      absurd (omega (arith, same))
  | inr e ↦ e
]

bearer_of :
    (expected header : Bytes)
    → (bytes_eq (trim_prefix header (bytes "Bearer ")) header
        || not (bytes_eq (trim_prefix header (bytes "Bearer ")) expected))
      ≡ false
    → header ≡ bytes "Bearer " ++ expected
unfolding trim_prefix
bearer_of expected header h = elim (Bool-cases (has_prefix header (bytes "Bearer "))) [
  | inl e ↦
      prefix_split header (bytes "Bearer ") e
      ∙ ap (λ t. bytes "Bearer " ++ t)
          (eq_of_bytes_eq (drop (length (bytes "Bearer ")) header) expected
            (ground (arith, rw e at h)))
  | inr e ↦ absurd (ground (arith, rw e at h, bytes_eq_self header))
]

-- A request passes the guard exactly when it asks for the health check or its Authorization is
-- "Bearer " and the expected token; every other one is answered with 401.
pub token_auth-passes :
    (expected path header : Bytes)
    → (token_auth expected path header ≡ passed)
      ↔ ((path ≡ health_path) ⊎ (header ≡ bytes "Bearer " ++ expected))
unfolding token_auth trim_prefix
token_auth-passes expected path header = elim (Bool-cases (bytes_eq path health_path)) [
  | inl e ↦ rw e (λ h. inl (eq_of_bytes_eq path health_path e), λ h. refl)
  | inr e ↦ rw e (
    λ h. inr (bearer_of expected header (ground arith)),
    λ h. elim h [
      | inl p ↦ absurd (let q : true ≡ false = rw (p, bytes_eq_self health_path) at e in cc)
      | inr p ↦ rw (p, trim_bearer expected, longer expected, bytes_eq_self expected) refl
    ],
  )
]
