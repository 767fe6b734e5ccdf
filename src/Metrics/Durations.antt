-- ===== src/Metrics/Durations.antt =====
-- About durationStat of internal/metrics.
use rojo.Base.{
  ℕ, ◌+◌, ◌*◌, ◌≤◌, Bool-cases, List, [], ◌∷◌, ◌++◌, ◌≡◌, inl, inr, arith, All, ltb, length,
}
use rojo.Base.{ℤ, pos, negsuc}
use native.Mathlib.Nat.{mul-le-mul_left}
use rojo.Metrics.{DurationStat, record_duration}

abbrev pub known : ℤ → List ℕ
known (pos v) = v ∷ []
known (negsuc n) = []

abbrev pub sum : List ℕ → ℕ
sum [] = 0
sum (v ∷ vs) = v + sum vs

-- The statistics of a list of durations: no duration is above the maximum, nor is their mean.
pub record IsStat (vs : List ℕ) (d : DurationStat) : Type 0 where
  pub sums : d.total ≡ sum vs
  pub counts : d.count ≡ length vs
  pub bounds : All (λ v. v ≤ d.max) vs
  pub mean : d.total ≤ d.count * d.max

above : (vs : List ℕ) (a b : ℕ) → a ≤ b → All (λ v. v ≤ a) vs → All (λ v. v ≤ b) vs
above [] a b h k = tt
above (v ∷ vs) a b h (p, k) = (omega (arith, h, p), above vs a b h k)

-- A larger maximum, and one duration more that it bounds.
higher :
    (d : DurationStat) (v m : ℕ)
    → d.total ≤ d.count * d.max
    → d.max ≤ m
    → v ≤ m
    → d.total + v ≤ (d.count + 1) * m
higher d v m h k l = omega (arith, h, l, mul-le-mul_left d.count k)

pub record_duration-IsStat :
    (v : ℤ) (vs : List ℕ) (d : DurationStat)
    → IsStat vs d
    → IsStat (known v ++ vs) (record_duration v d)
unfolding record_duration
record_duration-IsStat (negsuc n) vs d h = h
record_duration-IsStat (pos v) vs d h = elim (Bool-cases (ltb d.max v)) [
  | inl e ↦ rw e (record {
    sums = omega (arith, h.sums);
    counts = omega (arith, h.counts);
    bounds = (omega arith, above vs d.max v (ground (arith, e)) h.bounds);
    mean = higher d v v h.mean (ground (arith, e)) (omega arith);
  })
  | inr e ↦ rw e (record {
    sums = omega (arith, h.sums);
    counts = omega (arith, h.counts);
    bounds = (ground (arith, e), h.bounds);
    mean = higher d v d.max h.mean (omega arith) (ground (arith, e));
  })
]
