-- ===== src/Factory/RateLimit/Admission.antt =====
-- How many messages the leaky bucket (ractor/src/factory/ratelim.rs) lets through over time.
use ractor.Prelude.{
  ℕ, ◌+◌, ◌*◌, ◌≤◌, ◌<◌, ◌≡◌, refl, ap, ◌∙◌, ◌⊎◌, inl, inr, Option, some, List, [], ◌∷◌, arith,
  if◌then◌else◌, All, dec_lt,
}
use native.Mathlib.Nat.{add-zero}
use ractor.Factory.RateLimit.Bucket.{
  LeakyBucketRateLimiter, refresh, check, bump, u64_max, nanos_per_second,
}
use ractor.Factory.RateLimit.Balance.{refresh_due, refresh_early, refresh-shape, periods_by}

module _ (checked_add : ℕ → ℕ → Option ℕ) where
  -- One message at `now`: checked, and counted if it is let through.
  unfoldable pub admit : ℕ → LeakyBucketRateLimiter → ℕ × LeakyBucketRateLimiter
  admit now b =
      let (allowed, b') = check checked_add now b in if allowed then (1, bump b') else (0, b')

  unfoldable pub admit_all : List ℕ → LeakyBucketRateLimiter → ℕ × LeakyBucketRateLimiter
  admit_all [] b = (0, b)
  admit_all (now ∷ later) b =
      let (n, b') = admit now b in let (m, b'') = admit_all later b' in (n + m, b'')

  -- What `n` messages let through cost: `p` intervals have ended by `last`.
  abbrev pub Paid : ℕ → ℕ → LeakyBucketRateLimiter → ℕ → LeakyBucketRateLimiter → Type 0
  Paid last deadline b n b' =
      (p : ℕ) × (n + b'.balance ≤ b.balance + p * b.refill)
      × (b'.deadline ≡ some (deadline + p * b.interval))
      × ((p ≡ 0) ⊎ (deadline + p * b.interval ≤ last + b.interval))
      × (b'.interval ≡ b.interval)
      × (b'.refill ≡ b.refill)

  admit-refresh :
      (now : ℕ) (b : LeakyBucketRateLimiter)
      → let r = refresh checked_add now b in
        let a = admit now b in
        (a.0 + a.1.balance ≡ r.balance)
        × (a.1.deadline ≡ r.deadline)
        × (a.1.interval ≡ r.interval)
        × (a.1.refill ≡ r.refill)
  unfolding admit check bump
  admit-refresh now b = ground arith

  admit-Paid :
      (last now deadline : ℕ) (b : LeakyBucketRateLimiter)
      → b.deadline ≡ some deadline
      → 0 < b.interval
      → b.interval ≤ u64_max * nanos_per_second
      → ((t x : ℕ) → x ≤ b.interval → checked_add t x ≡ some (t + x))
      → now ≤ last
      → Paid last deadline b (admit now b).0 (admit now b).1
  admit-Paid last now deadline b e pos fits add by =
      let (spent, same_deadline, same_interval, same_refill) = admit-refresh now b in
      let (interval, refill) = refresh-shape checked_add now b in
      elim (dec_lt now deadline) [
        | yes early ↦
            let r = refresh_early checked_add now deadline b e early in
            (
              0,
              ground (arith, r),
              ground (arith, r),
              inl refl,
              same_interval ∙ interval,
              same_refill ∙ refill,
            )
        | no late ↦
            let (due, after, within, balance) =
              refresh_due checked_add now deadline b e (omega arith) pos fits (add now) in
            (
              periods_by now deadline b.interval,
              omega arith,
              same_deadline ∙ due,
              inr (omega arith),
              same_interval ∙ interval,
              same_refill ∙ refill,
            )
      ]

  Paid-trans :
      (last deadline n m : ℕ) (b b' b'' : LeakyBucketRateLimiter)
      → (first : Paid last deadline b n b') → Paid last (deadline + first.0 * b.interval) b' m b''
      → Paid last deadline b (n + m) b''
  Paid-trans last deadline n m b b' b'' (p, spent, due, by, interval, refill)
        (q, spent', due', by', interval', refill') =
      let qr : q * b'.refill ≡ q * b.refill = ap (λ t. q * t) refill in
      let qi : q * b'.interval ≡ q * b.interval = ap (λ t. q * t) interval in
      (
        p + q,
        omega (arith, qr),
        due' ∙ ap some (omega (arith, qi)),
        ends qi by by',
        interval' ∙ interval,
        refill' ∙ refill,
      )
    where
      ends :
          q * b'.interval ≡ q * b.interval
          → (p ≡ 0) ⊎ (deadline + p * b.interval ≤ last + b.interval)
          → (q ≡ 0) ⊎ (deadline + p * b.interval + q * b'.interval ≤ last + b'.interval)
          → (p + q ≡ 0) ⊎ (deadline + (p + q) * b.interval ≤ last + b.interval)
      ends qi (inl a) (inl c) = inl (omega arith)
      ends qi (inr a) (inl c) = inr (rw c (rw add-zero a))
      ends qi a (inr c) = inr (omega arith)

  -- However the messages arrive, those let through by the instant `last` are at most the balance
  -- at the start and a refill for each of `p` intervals, and `p` intervals from the first deadline
  -- end at most one interval after `last`. The interval is positive and a representable duration,
  -- and the platform can represent the instants.
  pub admit_all-Paid :
      (last : ℕ) (times : List ℕ) (deadline : ℕ) (b : LeakyBucketRateLimiter)
      → b.deadline ≡ some deadline
      → 0 < b.interval
      → b.interval ≤ u64_max * nanos_per_second
      → ((t x : ℕ) → x ≤ b.interval → checked_add t x ≡ some (t + x))
      → All (λ now. now ≤ last) times
      → Paid last deadline b (admit_all times b).0 (admit_all times b).1
  unfolding admit_all
  admit_all-Paid last [] deadline b e pos fits add by =
      (0, omega arith, rw e (ground arith), inl refl, refl, refl)
  admit_all-Paid last (now ∷ times) deadline b e pos fits add by =
      let first = admit-Paid last now deadline b e pos fits add by.0 in
      let (p, spent, due, ends, interval, refill) = first in
      let b' = (admit now b).1 in
      Paid-trans last deadline _ _ b b' (admit_all times b').1 first (
        admit_all-Paid last times (deadline + p * b.interval) b' due (omega arith) (omega arith)
          (λ t x h. add t x (omega arith)) by.1)
