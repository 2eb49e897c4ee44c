-- ===== src/Actor/Admission/Drained.antt =====
-- The drain marker on an actor's message port (ractor/src/actor/actor_properties.rs), however the
-- senders and the drains interleave.
use ractor.Prelude.{
  ℕ, zero, suc, ◌+◌, ◌-◌, ◌≤◌, ◌<◌, ◌≡◌, refl, true, List, [], ◌∷◌, arith, ◌==◌, none, some, All,
  min, dec_lt, length, if◌then◌else◌,
}
use ractor.Actor.Status.{ActorStatus}
use ractor.Actor.Admission.{
  ActorProperties, Thread, checking_status, admitting, boxing, releasing, closing, raising, marking,
  pushing, advancing, finished, rejected, check_status, try_admit_message, send_boxed,
  drop_admission, close_message_admission, raise_to_draining, send_drain_marker, step, step_at,
  interleave, Fresh, new_properties,
}
use ractor.Actor.Admission.Ledger.{
  drains, drain_is_last, holds, owes, pushes, drain_calls, total, Totals, interleave-Bound,
}

-- How often a schedule names a thread.
unfoldable pub turns : ℕ → List ℕ → ℕ
turns i [] = 0
turns i (j ∷ schedule) = (if j == i then 1 else 0) + turns i schedule

module _ {M : Type 0} where
  -- How many steps a thread has to go at most.
  abbrev to_go : Thread M → ℕ
  to_go (checking_status boxed) = 6
  to_go (admitting boxed) = 5
  to_go (boxing boxed) = 4
  to_go releasing = 3
  to_go closing = 4
  to_go raising = 3
  to_go marking = 2
  to_go pushing = 1
  to_go (advancing status) = 1
  to_go finished = 0
  to_go rejected = 0

  to_go_at : ℕ → List (Thread M) → ℕ
  to_go_at i [] = 0
  to_go_at zero (t ∷ ts) = to_go t
  to_go_at (suc i) (t ∷ ts) = to_go_at i ts

  to_go-step : (t : Thread M) (p : ActorProperties M) → to_go (step t p).0 ≤ to_go t - 1
  unfolding step check_status try_admit_message send_boxed drop_admission close_message_admission
      raise_to_draining send_drain_marker
  to_go-step (checking_status boxed) p = ground arith
  to_go-step (admitting boxed) p = ground arith
  to_go-step (boxing none) p = ground arith
  to_go-step (boxing (some m)) p = ground arith
  to_go-step releasing p = ground arith
  to_go-step closing p = ground arith
  to_go-step raising p = ground arith
  to_go-step marking p = ground arith
  to_go-step pushing p = ground arith
  to_go-step (advancing status) p = ground arith
  to_go-step finished p = ground arith
  to_go-step rejected p = ground arith

  to_go_at-step_at :
      (i j : ℕ) (ts : List (Thread M)) (p : ActorProperties M)
      → to_go_at j (step_at i ts p).0 ≤ to_go_at j ts - (if i == j then 1 else 0)
  unfolding step_at to_go_at
  to_go_at-step_at i j [] p = ground arith
  to_go_at-step_at zero zero (t ∷ ts) p = ground (arith, to_go-step t p)
  to_go_at-step_at zero (suc j) (t ∷ ts) p = ground arith
  to_go_at-step_at (suc i) zero (t ∷ ts) p = ground arith
  to_go_at-step_at (suc i) (suc j) (t ∷ ts) p = ground (arith, to_go_at-step_at i j ts p)

  to_go_at-interleave :
      (schedule : List ℕ) (j : ℕ) (ts : List (Thread M)) (p : ActorProperties M)
      → to_go_at j (interleave schedule ts p).0 ≤ to_go_at j ts - turns j schedule
  unfolding interleave turns
  to_go_at-interleave [] j ts p = ground arith
  to_go_at-interleave (i ∷ schedule) j ts p = ground (
    arith,
    to_go_at-interleave schedule j (step_at i ts p).0 (step_at i ts p).1,
    to_go_at-step_at i j ts p,
  )

  -- Threads that have nothing left to do hold and owe nothing.
  total_settled :
      (measure : Thread M → ℕ) (ts : List (Thread M))
      → ((t : Thread M) → to_go t ≡ 0 → measure t ≡ 0)
      → ((j : ℕ) → to_go_at j ts ≡ 0)
      → total measure ts ≡ 0
  unfolding total to_go_at
  total_settled measure [] idle done = refl
  total_settled measure (t ∷ ts) idle done =
      ground (arith, idle t (done 0), total_settled measure ts idle (λ j. done (suc j)))

  total-Fresh :
      (measure : Thread M → ℕ) (ts : List (Thread M))
      → ((t : Thread M) → Fresh t → measure t ≡ 0)
      → All Fresh ts
      → total measure ts ≡ 0
  unfolding total
  total-Fresh measure [] idle fresh = refl
  total-Fresh measure (t ∷ ts) idle fresh =
      ground (arith, idle t fresh.0, total-Fresh measure ts idle fresh.1)

  to_go_at-le-six : (j : ℕ) (ts : List (Thread M)) → to_go_at j ts ≤ 6
  unfolding to_go_at
  to_go_at-le-six j [] = omega arith
  to_go_at-le-six zero (t ∷ ts) = to_go-le-six t
    where
      to_go-le-six : (t : Thread M) → to_go t ≤ 6
      to_go-le-six (checking_status boxed) = omega arith
      to_go-le-six (admitting boxed) = omega arith
      to_go-le-six (boxing boxed) = omega arith
      to_go-le-six releasing = omega arith
      to_go-le-six closing = omega arith
      to_go-le-six raising = omega arith
      to_go-le-six marking = omega arith
      to_go-le-six pushing = omega arith
      to_go-le-six (advancing status) = omega arith
      to_go-le-six finished = omega arith
      to_go-le-six rejected = omega arith
  to_go_at-le-six (suc j) (t ∷ ts) = to_go_at-le-six j ts

  holds-Fresh : (t : Thread M) → Fresh t → holds t + pushes t ≡ 0
  holds-Fresh (checking_status boxed) f = refl
  holds-Fresh closing f = refl
  holds-Fresh (advancing status) f = refl
  holds-Fresh (admitting boxed) f = absurd f
  holds-Fresh (boxing boxed) f = absurd f
  holds-Fresh releasing f = absurd f
  holds-Fresh raising f = absurd f
  holds-Fresh marking f = absurd f
  holds-Fresh pushing f = absurd f
  holds-Fresh finished f = absurd f
  holds-Fresh rejected f = absurd f

  new_properties-Totals :
      (ts : List (Thread M)) (status : ActorStatus)
      → All Fresh ts
      → Totals (total drain_calls ts) ts 0 0 0 0 (new_properties status)
  unfolding new_properties drains drain_is_last
  new_properties-Totals ts status fresh = record {
    counted = ground (arith, total-Fresh holds ts (λ t f. ground (arith, holds-Fresh t f)) fresh);
    marked = ground (arith, total-Fresh pushes ts (λ t f. ground (arith, holds-Fresh t f)) fresh);
    last = refl;
    sealed = λ e. e;
    emptied = λ e. refl;
    owed = λ e n. ground arith;
    unclosed = λ e. omega arith;
    asked = λ e. ground arith;
  }

  -- However senders, drains and advances of the status interleave on a new port, at most one drain
  -- marker is sent, and no message after it.
  pub interleave-drain_is_last :
      (ts : List (Thread M)) (status : ActorStatus) (schedule : List ℕ)
      → All Fresh ts
      → let p = (interleave schedule ts (new_properties status)).1 in
        (drain_is_last p.sent ≡ true) × (drains p.sent ≤ 1)
  interleave-drain_is_last ts status schedule fresh =
      let b =
        interleave-Bound (total drain_calls ts) schedule ts (new_properties status)
          (new_properties-Totals ts status fresh) in
      (b.last, ground (arith, b.marked))

  -- A thread with nothing left to do has nothing on any account.
  settled : (t : Thread M) → to_go t ≡ 0 → holds t + (owes t + (pushes t + drain_calls t)) ≡ 0
  unfolding drain_calls
  settled (checking_status boxed) e = ground arith
  settled (admitting boxed) e = ground arith
  settled (boxing boxed) e = ground arith
  settled releasing e = ground arith
  settled closing e = ground arith
  settled raising e = ground arith
  settled marking e = ground arith
  settled pushing e = ground arith
  settled (advancing status) e = ground arith
  settled finished e = ground arith
  settled rejected e = ground arith

  to_go_at_beyond : (j : ℕ) (ts : List (Thread M)) → length ts ≤ j → to_go_at j ts ≡ 0
  unfolding to_go_at
  to_go_at_beyond j [] h = refl
  to_go_at_beyond zero (t ∷ ts) h = omega arith
  to_go_at_beyond (suc j) (t ∷ ts) h = to_go_at_beyond j ts (omega arith)

  all_settled :
      (ts : List (Thread M)) (p : ActorProperties M) (schedule : List ℕ)
      → ((i : ℕ) → i < length ts → 6 ≤ turns i schedule)
      → (j : ℕ) → to_go_at j (interleave schedule ts p).0 ≡ 0
  all_settled ts p schedule fair j = elim (dec_lt j (length ts)) [
    | yes h ↦ ground (arith, fair j h, to_go_at-le-six j ts, to_go_at-interleave schedule j ts p)
    | no n ↦ ground (arith, to_go_at_beyond j ts (omega arith), to_go_at-interleave schedule j ts p)
  ]

  -- Once each thread has had six turns, whatever the interleaving, there is exactly one drain marker on
  -- the port if some thread drains, and none otherwise.
  pub interleave-drains :
      (ts : List (Thread M)) (status : ActorStatus) (schedule : List ℕ)
      → All Fresh ts
      → ((i : ℕ) → i < length ts → 6 ≤ turns i schedule)
      → drains (interleave schedule ts (new_properties status)).1.sent
        ≡ min 1 (total drain_calls ts)
  interleave-drains ts status schedule fresh fair =
      let p = new_properties status in
      let done = all_settled ts p schedule fair in
      let ts' = (interleave schedule ts p).0 in
      let b =
        interleave-Bound (total drain_calls ts) schedule ts p
          (new_properties-Totals ts status fresh) in
      ground (
        arith,
        b.marked,
        b.sealed,
        b.owed,
        b.unclosed,
        b.asked,
        total_settled holds ts' (λ t e. ground (arith, settled t e)) done,
        total_settled owes ts' (λ t e. ground (arith, settled t e)) done,
        total_settled pushes ts' (λ t e. ground (arith, settled t e)) done,
        total_settled drain_calls ts' (λ t e. ground (arith, settled t e)) done,
      )
