-- ===== src/Tests/Retry.antt =====
-- Retriable messages.
use ractor.Prelude.{ℕ, ◌≡◌, refl, some, none, true, [], ◌∷◌}
use ractor.Factory.Effects.{sent}
use ractor.Factory.Retry.{RetriableMessage, Surroundings, count}
use ractor.Factory.Retry.Budget.{armed, resubmissions, resubmissions-min}
use ractor.Tests.Data.{noon, plain}

abbrev reachable : Surroundings
reachable = record {
  clock = noon;
  is_message_type_of = λ factory. some true;
  cast = λ factory. sent;
}

abbrev message : RetriableMessage ℕ ℕ
message = armed 1 10 (count 2) none plain 4

resubmissions-min_example : resubmissions (reachable ∷ reachable ∷ reachable ∷ []) message ≡ 2
resubmissions-min_example =
    resubmissions-min (reachable ∷ reachable ∷ reachable ∷ []) 2 1 10 none plain 4 refl
      ((refl, refl), ((refl, refl), ((refl, refl), tt)))
