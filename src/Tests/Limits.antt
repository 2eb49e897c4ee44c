-- ===== src/Tests/Limits.antt =====
-- The leaky bucket.
use ractor.Prelude.{ℕ, ◌+◌, ◌*◌, ◌≤◌, ◌<◌, ◌≡◌, refl, Option, some, List, [], ◌∷◌, arith}
use ractor.Factory.RateLimit.Bucket.{LeakyBucketRateLimiter, refresh}
use ractor.Factory.RateLimit.Balance.{refresh_due}
use ractor.Factory.RateLimit.Admission.{Paid, admit_all, admit_all-Paid}

abbrev endless : ℕ → ℕ → Option ℕ
endless t x = some (t + x)

-- Two tokens every 100 ns, three at most, one left.
abbrev bucket : LeakyBucketRateLimiter
bucket = record { refill = 2; interval = 100; max = 3; balance = 1; deadline = some 1000 }

refresh_due_example :
    ((refresh endless 1250 bucket).deadline ≡ some (1000 + 3 * 100))
    × (1250 < 1000 + 3 * 100)
    × (1000 + 3 * 100 ≤ 1250 + 100)
    × ((refresh endless 1250 bucket).balance ≤ 1 + 3 * 2)
refresh_due_example =
    refresh_due endless 1250 1000 bucket refl (omega arith) (omega arith) (omega arith)
      (λ x h. refl)

abbrev times : List ℕ
times = 990 ∷ 991 ∷ 1010 ∷ 1011 ∷ 1250 ∷ []

admit_all-Paid_example :
    Paid endless 1250 1000 bucket
      (admit_all endless times bucket).0
      (admit_all endless times bucket).1
admit_all-Paid_example =
    admit_all-Paid endless 1250 times 1000 bucket refl (omega arith) (omega arith) (λ t x h. refl)
      (omega arith)
