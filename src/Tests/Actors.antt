-- ===== src/Tests/Actors.antt =====
-- Message admission, the supervision tree, the registries and the process groups.
use ractor.Groups.{
  Sentinels, GroupOperation, joining, leaving, perform_groups, new_groups, leave_all,
}
use ractor.Groups.Loops.{is_member}
use ractor.Groups.Enrolled.{Enrolled, perform_groups-Enrolled, member-leave_all}
use ractor.Prelude.{
  ℕ_discrete, false, ◌==◌, if◌then◌else◌, ℕ, zero, suc, ◌≡◌, ◌≤◌, ◌<◌, true, some, List, [], ◌∷◌,
  min, All, arith, length,
}
use ractor.Actor.Status.{running}
use ractor.Actor.Admission.{Thread, interleave, Fresh, new_properties}
use ractor.Actor.Admission.Ledger.{drains, drain_is_last, drain_calls, total}
use ractor.Actor.Admission.Drained.{turns, interleave-drain_is_last, interleave-drains}
use ractor.Actor.Supervision.{
  Actors, Operation, linking, update, change_children, perform_all, new_actor, terminate,
  default_tree,
}
use ractor.Actor.Supervision.Mutual.{Mutual, perform_all-Mutual}
use ractor.Actor.Supervision.Terminated.{Descends, Ended, Closed, terminate-ends}

-- Two senders and two drains.
abbrev threads : List (Thread ℕ)
threads =
    Thread.checking_status (some 5)
    ∷ Thread.closing
    ∷ Thread.checking_status (some 6)
    ∷ Thread.closing
    ∷ []

abbrev schedule : List ℕ
schedule =
    0 ∷ 0 ∷ 1 ∷ 2 ∷ 3 ∷ 3 ∷ 0 ∷ 3 ∷ 2 ∷ 0 ∷ 1 ∷ 1 ∷ 0 ∷ 0 ∷ 1 ∷ 2 ∷ 3 ∷ 3 ∷ 2 ∷ 3 ∷ 2 ∷ 2 ∷ 1 ∷ 1
    ∷ []

threads-Fresh : All Fresh threads
threads-Fresh = (tt, (tt, (tt, (tt, tt))))

interleave-drain_is_last_example :
    (drain_is_last (interleave schedule threads (new_properties running)).1.sent ≡ true)
    × (drains (interleave schedule threads (new_properties running)).1.sent ≤ 1)
interleave-drain_is_last_example = interleave-drain_is_last threads running schedule threads-Fresh

schedule_fair : (i : ℕ) → i < length threads → 6 ≤ turns i schedule
unfolding turns
schedule_fair zero h = omega arith
schedule_fair (suc zero) h = omega arith
schedule_fair (suc (suc zero)) h = omega arith
schedule_fair (suc (suc (suc zero))) h = omega arith
schedule_fair (suc (suc (suc (suc i)))) h = omega arith

interleave-drains_example :
    drains (interleave schedule threads (new_properties running)).1.sent
    ≡ min 1 (total drain_calls threads)
interleave-drains_example = interleave-drains threads running schedule threads-Fresh schedule_fair

abbrev links : List Operation
links = linking 2 1 ∷ linking 3 2 ∷ linking 2 4 ∷ []

perform_all-Mutual_example : Mutual (perform_all links (λ id. new_actor))
perform_all-Mutual_example = perform_all-Mutual links

-- Actor 1 supervises 2, which supervises 3.
abbrev family : Actors
family =
    update 1 (change_children (λ children. (2, tt) ∷ []))
      (update 2 (change_children (λ children. (3, tt) ∷ [])) (λ id. new_actor))

family-Closed : Closed (1 ∷ 2 ∷ []) family
unfolding update change_children new_actor default_tree
family-Closed id h = ground arith

terminate-ends_example :
    (after : Actors) × (terminate (1 ∷ 2 ∷ []) 1 family ≡ some after)
    × ((id : ℕ) → Descends family 1 id → Ended family id after)
terminate-ends_example = terminate-ends (1 ∷ 2 ∷ []) 1 family family-Closed

abbrev sentinels : Sentinels ℕ
sentinels = record { all_scopes = 100; all_groups = 101 }

-- Actors 7 and 8 join a group, of which 8 is stopping, 7 joins another, and leaves the first.
abbrev changes : List (GroupOperation ℕ)
changes =
    joining (λ a. true) (λ a. a == 7) (1, 2) (7 ∷ 8 ∷ [])
    ∷ joining (λ a. true) (λ a. true) (1, 3) (7 ∷ [])
    ∷ leaving (1, 2) (7 ∷ [])
    ∷ []

perform_groups-Enrolled_example :
    Enrolled ℕ_discrete (perform_groups ℕ_discrete sentinels changes new_groups)
perform_groups-Enrolled_example = perform_groups-Enrolled ℕ_discrete sentinels changes

member-leave_all_example :
    is_member ℕ_discrete
      (1, 3)
      7
      (leave_all ℕ_discrete sentinels 7 (perform_groups ℕ_discrete sentinels changes new_groups)).0
    ≡ (if 7 == 7
        then false
        else is_member ℕ_discrete (1, 3) 7 (perform_groups ℕ_discrete sentinels changes new_groups))
member-leave_all_example =
    member-leave_all ℕ_discrete sentinels 7 (perform_groups ℕ_discrete sentinels changes new_groups)
      (perform_groups-Enrolled ℕ_discrete sentinels changes) (1, 3) 7
