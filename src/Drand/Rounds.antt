-- ===== src/Drand/Rounds.antt =====
-- Which round a time is sealed to.
use sealed_sky_verification.Common.{
  ℕ, zero, suc, ◌+◌, ◌-◌, ◌*◌, ◌≤◌, ◌<◌, ◌≡◌, arith, max, ◌⊎◌, inl, inr, refl, ap,
}
use sealed_sky_verification.Drand.{ChainInfo, ceil_div, round_at_time, time_at_round}
use native.Mathlib.Decide.{dec_lt}
use native.Mathlib.Nat.{div-add-mod, mod-lt}

ceil_div_bounds : (n d : ℕ) → 0 < d → (n ≤ ceil_div n d * d) × (ceil_div n d * d < n + d)
ceil_div_bounds n d h = omega (arith, div-add-mod (n + (d - 1)) d, mod-lt (n + (d - 1)) h)

le_of_mul_lt : (q r d : ℕ) → q * d < r * d + d → q ≤ r
le_of_mul_lt zero r d h = omega arith
le_of_mul_lt (suc q) zero d h = absurd (omega arith)
le_of_mul_lt (suc q) (suc r) d h = omega (arith, le_of_mul_lt q r d (omega arith))

ceil_div-zero : (n d : ℕ) → 0 < d → n ≡ 0 → ceil_div n d ≡ 0
ceil_div-zero n d h e = omega (
  arith,
  ceil_div_bounds n d h,
  le_of_mul_lt (ceil_div n d) 0 d (omega (arith, ceil_div_bounds n d h)),
)

ceil_div_pos : (n d : ℕ) → 0 < d → 0 < n → 1 ≤ ceil_div n d
ceil_div_pos n d h p = go (ceil_div n d) (ceil_div_bounds n d h).0
  where
    go : (q : ℕ) → n ≤ q * d → 1 ≤ q
    go zero b = absurd (omega arith)
    go (suc q) b = omega arith

-- The chosen round is the quotient rounded up, or 1 for a target not after the genesis.
round_at_time-cases :
    (target : ℕ) (info : ChainInfo)
    → 0 < info.period
    → ((target ≤ info.genesis_time) × (round_at_time target info ≡ 1))
      ⊎ ((info.genesis_time < target)
          × (round_at_time target info ≡ ceil_div (target - info.genesis_time) info.period))
unfolding round_at_time
round_at_time-cases target info h = elim (dec_lt info.genesis_time target) [
  | yes p ↦
      inr (p, omega (arith, ceil_div_pos (target - info.genesis_time) info.period h (omega arith)))
  | no p ↦ inl (
    omega arith,
    omega (arith, ceil_div-zero (target - info.genesis_time) info.period h (omega arith)),
  )
]

suc_of_pos : (q : ℕ) → 1 ≤ q → (k : ℕ) × (q ≡ suc k)
suc_of_pos zero h = absurd (omega arith)
suc_of_pos (suc k) h = (k, refl)

module _ (target : ℕ) (info : ChainInfo) (positive : 0 < info.period) where
  -- The time that the program assigns to the chosen round is not before the target, and less than
  -- one period after the later of the target and the second after the genesis.
  pub time_at_round-round_at_time :
      (target ≤ time_at_round (round_at_time target info) info)
      × (time_at_round (round_at_time target info) info
          < max target (info.genesis_time + 1) + info.period)
  unfolding time_at_round
  time_at_round-round_at_time = elim (round_at_time-cases target info positive) [
    | inl (early, e) ↦ rw e (omega arith)
    | inr (late, e) ↦
        rw e (omega (arith, ceil_div_bounds (target - info.genesis_time) info.period positive))
  ]

  -- No earlier round will do: every round from 1 on whose time is not before the target is at
  -- least the chosen one.
  round_at_time_least :
      (round : ℕ)
      → 1 ≤ round
      → target ≤ time_at_round round info
      → round_at_time target info ≤ round
  unfolding time_at_round
  round_at_time_least round h k = elim (round_at_time-cases target info positive) [
    | inl (early, e) ↦ rw e h
    | inr (late, e) ↦ rw e (
        le_of_mul_lt (ceil_div (target - info.genesis_time) info.period) round info.period
          (omega (arith, ceil_div_bounds (target - info.genesis_time) info.period positive)))
  ]

  -- Let the network publish round `r` at `genesis + (r - 1) * period`, as drand documents. For a
  -- target after the genesis the chosen round is published before the target, by one period at
  -- most.
  pub round_at_time_published_early :
      (published : ℕ → ℕ)
      → ((r : ℕ) → published (suc r) ≡ info.genesis_time + r * info.period)
      → info.genesis_time < target
      → (published (round_at_time target info) < target)
        × (target ≤ published (round_at_time target info) + info.period)
  round_at_time_published_early published schedule late =
      elim (round_at_time-cases target info positive) [
        | inl (early, e) ↦ absurd (omega arith)
        | inr (_, e) ↦
            let n = target - info.genesis_time in
            let (k, e') = suc_of_pos _ (ceil_div_pos n info.period positive (omega arith)) in
            let (low, high) = ceil_div_bounds n info.period positive in
            rw (e, e', schedule k) (omega (arith, ap (λ (t : ℕ). t * info.period) e', low, high))
      ]
