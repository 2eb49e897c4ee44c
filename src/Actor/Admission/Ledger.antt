-- ===== src/Actor/Admission/Ledger.antt =====
-- What the threads at an actor's message port (ractor/src/actor/actor_properties.rs) hold and owe,
-- against the admission word and what was sent.
use ractor.Prelude.{
  ℕ, zero, suc, ◌+◌, ◌≤◌, ◌≡◌, Bool, true, false, List, [], ◌∷◌, arith, ◌==◌, none, some,
  if◌then◌else◌,
}
use ractor.Actor.Admission.{
  MuxedMessage, drain, message, ActorProperties, Thread, checking_status, admitting, boxing,
  releasing, closing, raising, marking, pushing, advancing, finished, rejected, push, check_status,
  try_admit_message, send_boxed, drop_admission, close_message_admission, raise_to_draining,
  send_drain_marker, step, step_at, interleave,
}

module _ {M : Type 0} where
  -- How many markers are on the port.
  unfoldable pub drains : List (MuxedMessage M) → ℕ
  drains [] = 0
  drains (drain ∷ sent) = suc (drains sent)
  drains (message m ∷ sent) = drains sent

  -- Nothing was sent after a marker.
  unfoldable pub drain_is_last : List (MuxedMessage M) → Bool
  drain_is_last [] = true
  drain_is_last (m ∷ sent) = drains sent == 0

  -- Threads that hold an admission, that have yet to send a marker that is set, and that are about
  -- to ask whether it is to be set.
  abbrev pub holds : Thread M → ℕ
  holds (boxing boxed) = 1
  holds releasing = 1
  holds _ = 0

  abbrev pub pushes : Thread M → ℕ
  pushes pushing = 1
  pushes _ = 0

  abbrev pub owes : Thread M → ℕ
  owes raising = 1
  owes marking = 1
  owes _ = 0

  unfoldable pub drain_calls : Thread M → ℕ
  drain_calls closing = 1
  drain_calls _ = 0

  unfoldable pub total : (Thread M → ℕ) → List (Thread M) → ℕ
  total measure [] = 0
  total measure (t ∷ ts) = measure t + total measure ts

  -- How the totals bind the admission word and what was sent.
  -- `calls` are the drains asked for, `calling` those that have yet to close the admission.
  pub record Bound (calls holding owing pushed calling : ℕ) (p : ActorProperties M) : Type 0 where
    pub counted : p.admission.count ≡ holding
    pub marked : drains p.sent + pushed ≡ (if p.admission.marker_sent then 1 else 0)
    pub last : drain_is_last p.sent ≡ true
    pub sealed : p.admission.marker_sent ≡ true → p.admission.closed ≡ true
    pub emptied : p.admission.marker_sent ≡ true → p.admission.count ≡ 0
    pub owed : p.admission.closed ≡ true → p.admission.marker_sent ≡ false → 1 ≤ holding + owing
    pub unclosed : p.admission.closed ≡ false → calling ≡ calls
    pub asked : p.admission.closed ≡ true → 1 ≤ calls

  step-Bound :
      (t : Thread M) (calls holding owing pushed calling : ℕ) (p : ActorProperties M)
      → Bound calls
          (holds t + holding)
          (owes t + owing)
          (pushes t + pushed)
          (drain_calls t + calling)
          p
      → Bound calls
          (holds (step t p).0 + holding)
          (owes (step t p).0 + owing)
          (pushes (step t p).0 + pushed)
          (drain_calls (step t p).0 + calling)
          (step t p).1
  unfolding drain_calls step check_status try_admit_message send_boxed drop_admission
      close_message_admission raise_to_draining send_drain_marker push drains drain_is_last
  step-Bound (checking_status boxed) k h o u c p b = record {
    counted = ground (arith, b.counted, b.sealed, b.emptied, b.owed, b.marked, b.last);
    marked = ground (arith, b.counted, b.sealed, b.emptied, b.owed, b.marked, b.last);
    last = ground (arith, b.counted, b.sealed, b.emptied, b.owed, b.marked, b.last);
    sealed = λ e. ground (arith, b.counted, b.sealed, b.emptied, b.owed, b.marked, b.last);
    emptied = λ e. ground (arith, b.counted, b.sealed, b.emptied, b.owed, b.marked, b.last);
    owed = λ e n. ground (arith, b.counted, b.sealed, b.emptied, b.owed, b.marked, b.last);
    unclosed = λ e. ground (arith, b.unclosed, b.asked);
    asked = λ e. ground (arith, b.unclosed, b.asked);
  }
  step-Bound (admitting boxed) k h o u c p b = record {
    counted = ground (arith, b.counted, b.sealed, b.emptied, b.owed, b.marked, b.last);
    marked = ground (arith, b.counted, b.sealed, b.emptied, b.owed, b.marked, b.last);
    last = ground (arith, b.counted, b.sealed, b.emptied, b.owed, b.marked, b.last);
    sealed = λ e. ground (arith, b.counted, b.sealed, b.emptied, b.owed, b.marked, b.last);
    emptied = λ e. ground (arith, b.counted, b.sealed, b.emptied, b.owed, b.marked, b.last);
    owed = λ e n. ground (arith, b.counted, b.sealed, b.emptied, b.owed, b.marked, b.last);
    unclosed = λ e. ground (arith, b.unclosed, b.asked);
    asked = λ e. ground (arith, b.unclosed, b.asked);
  }
  step-Bound (boxing none) k h o u c p b = record {
    counted = ground (arith, b.counted, b.sealed, b.emptied, b.owed, b.marked, b.last);
    marked = ground (arith, b.counted, b.sealed, b.emptied, b.owed, b.marked, b.last);
    last = ground (arith, b.counted, b.sealed, b.emptied, b.owed, b.marked, b.last);
    sealed = λ e. ground (arith, b.counted, b.sealed, b.emptied, b.owed, b.marked, b.last);
    emptied = λ e. ground (arith, b.counted, b.sealed, b.emptied, b.owed, b.marked, b.last);
    owed = λ e n. ground (arith, b.counted, b.sealed, b.emptied, b.owed, b.marked, b.last);
    unclosed = λ e. ground (arith, b.unclosed, b.asked);
    asked = λ e. ground (arith, b.unclosed, b.asked);
  }
  step-Bound (boxing (some m)) k h o u c p b = record {
    counted = ground (arith, b.counted, b.sealed, b.emptied, b.owed, b.marked, b.last);
    marked = ground (arith, b.counted, b.sealed, b.emptied, b.owed, b.marked, b.last);
    last = ground (arith, b.counted, b.sealed, b.emptied, b.owed, b.marked, b.last);
    sealed = λ e. ground (arith, b.counted, b.sealed, b.emptied, b.owed, b.marked, b.last);
    emptied = λ e. ground (arith, b.counted, b.sealed, b.emptied, b.owed, b.marked, b.last);
    owed = λ e n. ground (arith, b.counted, b.sealed, b.emptied, b.owed, b.marked, b.last);
    unclosed = λ e. ground (arith, b.unclosed, b.asked);
    asked = λ e. ground (arith, b.unclosed, b.asked);
  }
  step-Bound releasing k h o u c p b = record {
    counted = ground (arith, b.counted, b.sealed, b.emptied, b.owed, b.marked, b.last);
    marked = ground (arith, b.counted, b.sealed, b.emptied, b.owed, b.marked, b.last);
    last = ground (arith, b.counted, b.sealed, b.emptied, b.owed, b.marked, b.last);
    sealed = λ e. ground (arith, b.counted, b.sealed, b.emptied, b.owed, b.marked, b.last);
    emptied = λ e. ground (arith, b.counted, b.sealed, b.emptied, b.owed, b.marked, b.last);
    owed = λ e n. ground (arith, b.counted, b.sealed, b.emptied, b.owed, b.marked, b.last);
    unclosed = λ e. ground (arith, b.unclosed, b.asked);
    asked = λ e. ground (arith, b.unclosed, b.asked);
  }
  step-Bound closing k h o u c p b = record {
    counted = ground (arith, b.counted, b.sealed, b.emptied, b.owed, b.marked, b.last);
    marked = ground (arith, b.counted, b.sealed, b.emptied, b.owed, b.marked, b.last);
    last = ground (arith, b.counted, b.sealed, b.emptied, b.owed, b.marked, b.last);
    sealed = λ e. ground (arith, b.counted, b.sealed, b.emptied, b.owed, b.marked, b.last);
    emptied = λ e. ground (arith, b.counted, b.sealed, b.emptied, b.owed, b.marked, b.last);
    owed = λ e n. ground (arith, b.counted, b.sealed, b.emptied, b.owed, b.marked, b.last);
    unclosed = λ e. ground (arith, b.unclosed, b.asked);
    asked = λ e. ground (arith, b.unclosed, b.asked);
  }
  step-Bound raising k h o u c p b = record {
    counted = ground (arith, b.counted, b.sealed, b.emptied, b.owed, b.marked, b.last);
    marked = ground (arith, b.counted, b.sealed, b.emptied, b.owed, b.marked, b.last);
    last = ground (arith, b.counted, b.sealed, b.emptied, b.owed, b.marked, b.last);
    sealed = λ e. ground (arith, b.counted, b.sealed, b.emptied, b.owed, b.marked, b.last);
    emptied = λ e. ground (arith, b.counted, b.sealed, b.emptied, b.owed, b.marked, b.last);
    owed = λ e n. ground (arith, b.counted, b.sealed, b.emptied, b.owed, b.marked, b.last);
    unclosed = λ e. ground (arith, b.unclosed, b.asked);
    asked = λ e. ground (arith, b.unclosed, b.asked);
  }
  step-Bound marking k h o u c p b = record {
    counted = ground (arith, b.counted, b.sealed, b.emptied, b.owed, b.marked, b.last);
    marked = ground (arith, b.counted, b.sealed, b.emptied, b.owed, b.marked, b.last);
    last = ground (arith, b.counted, b.sealed, b.emptied, b.owed, b.marked, b.last);
    sealed = λ e. ground (arith, b.counted, b.sealed, b.emptied, b.owed, b.marked, b.last);
    emptied = λ e. ground (arith, b.counted, b.sealed, b.emptied, b.owed, b.marked, b.last);
    owed = λ e n. ground (arith, b.counted, b.sealed, b.emptied, b.owed, b.marked, b.last);
    unclosed = λ e. ground (arith, b.unclosed, b.asked);
    asked = λ e. ground (arith, b.unclosed, b.asked);
  }
  step-Bound pushing k h o u c p b = record {
    counted = ground (arith, b.counted, b.sealed, b.emptied, b.owed, b.marked, b.last);
    marked = ground (arith, b.counted, b.sealed, b.emptied, b.owed, b.marked, b.last);
    last = ground (arith, b.counted, b.sealed, b.emptied, b.owed, b.marked, b.last);
    sealed = λ e. ground (arith, b.counted, b.sealed, b.emptied, b.owed, b.marked, b.last);
    emptied = λ e. ground (arith, b.counted, b.sealed, b.emptied, b.owed, b.marked, b.last);
    owed = λ e n. ground (arith, b.counted, b.sealed, b.emptied, b.owed, b.marked, b.last);
    unclosed = λ e. ground (arith, b.unclosed, b.asked);
    asked = λ e. ground (arith, b.unclosed, b.asked);
  }
  step-Bound (advancing status) k h o u c p b = record {
    counted = ground (arith, b.counted, b.sealed, b.emptied, b.owed, b.marked, b.last);
    marked = ground (arith, b.counted, b.sealed, b.emptied, b.owed, b.marked, b.last);
    last = ground (arith, b.counted, b.sealed, b.emptied, b.owed, b.marked, b.last);
    sealed = λ e. ground (arith, b.counted, b.sealed, b.emptied, b.owed, b.marked, b.last);
    emptied = λ e. ground (arith, b.counted, b.sealed, b.emptied, b.owed, b.marked, b.last);
    owed = λ e n. ground (arith, b.counted, b.sealed, b.emptied, b.owed, b.marked, b.last);
    unclosed = λ e. ground (arith, b.unclosed, b.asked);
    asked = λ e. ground (arith, b.unclosed, b.asked);
  }
  step-Bound finished k h o u c p b = record {
    counted = ground (arith, b.counted, b.sealed, b.emptied, b.owed, b.marked, b.last);
    marked = ground (arith, b.counted, b.sealed, b.emptied, b.owed, b.marked, b.last);
    last = ground (arith, b.counted, b.sealed, b.emptied, b.owed, b.marked, b.last);
    sealed = λ e. ground (arith, b.counted, b.sealed, b.emptied, b.owed, b.marked, b.last);
    emptied = λ e. ground (arith, b.counted, b.sealed, b.emptied, b.owed, b.marked, b.last);
    owed = λ e n. ground (arith, b.counted, b.sealed, b.emptied, b.owed, b.marked, b.last);
    unclosed = λ e. ground (arith, b.unclosed, b.asked);
    asked = λ e. ground (arith, b.unclosed, b.asked);
  }
  step-Bound rejected k h o u c p b = record {
    counted = ground (arith, b.counted, b.sealed, b.emptied, b.owed, b.marked, b.last);
    marked = ground (arith, b.counted, b.sealed, b.emptied, b.owed, b.marked, b.last);
    last = ground (arith, b.counted, b.sealed, b.emptied, b.owed, b.marked, b.last);
    sealed = λ e. ground (arith, b.counted, b.sealed, b.emptied, b.owed, b.marked, b.last);
    emptied = λ e. ground (arith, b.counted, b.sealed, b.emptied, b.owed, b.marked, b.last);
    owed = λ e n. ground (arith, b.counted, b.sealed, b.emptied, b.owed, b.marked, b.last);
    unclosed = λ e. ground (arith, b.unclosed, b.asked);
    asked = λ e. ground (arith, b.unclosed, b.asked);
  }

  abbrev pub Totals :
      (calls : ℕ) (ts : List (Thread M)) (h o u c : ℕ) (p : ActorProperties M) → Type 0
  Totals calls ts h o u c p =
      Bound calls (total holds ts + h) (total owes ts + o) (total pushes ts + u)
        (total drain_calls ts + c) p

  Bound-cast :
      {k h o u c h' o' u' c' : ℕ} {p : ActorProperties M}
      → h ≡ h'
      → o ≡ o'
      → u ≡ u'
      → c ≡ c'
      → Bound k h o u c p
      → Bound k h' o' u' c' p
  Bound-cast {p = p} eh eo eu ec b = record {
    counted = ground (arith, b.counted);
    marked = ground (arith, b.marked);
    last = b.last;
    sealed = b.sealed;
    emptied = b.emptied;
    owed = λ e n. ground (arith, b.owed e n);
    unclosed = λ e. ground (arith, b.unclosed e);
    asked = b.asked;
  }

  step_at-Bound :
      (k i : ℕ) (ts : List (Thread M)) (h o u c : ℕ) (p : ActorProperties M)
      → Totals k ts h o u c p
      → Totals k (step_at i ts p).0 h o u c (step_at i ts p).1
  unfolding step_at total
  step_at-Bound k i [] h o u c p b = b
  step_at-Bound k zero (t ∷ ts) h o u c p b =
      Bound-cast (omega arith) (omega arith) (omega arith) (omega arith) (
        step-Bound t k (total holds ts + h) (total owes ts + o) (total pushes ts + u)
          (total drain_calls ts + c) p
          (Bound-cast (omega arith) (omega arith) (omega arith) (omega arith) b))
  step_at-Bound k (suc i) (t ∷ ts) h o u c p b =
      Bound-cast (omega arith) (omega arith) (omega arith) (omega arith) (
        step_at-Bound k i ts (holds t + h) (owes t + o) (pushes t + u) (drain_calls t + c) p
          (Bound-cast (omega arith) (omega arith) (omega arith) (omega arith) b))

  pub interleave-Bound :
      (k : ℕ) (schedule : List ℕ) (ts : List (Thread M)) (p : ActorProperties M)
      → Totals k ts 0 0 0 0 p
      → Totals k (interleave schedule ts p).0 0 0 0 0 (interleave schedule ts p).1
  unfolding interleave
  interleave-Bound k [] ts p b = b
  interleave-Bound k (i ∷ schedule) ts p b =
      interleave-Bound k schedule (step_at i ts p).0 (step_at i ts p).1
        (step_at-Bound k i ts 0 0 0 0 p b)
