-- ===== src/Actor/Admission.antt =====
-- The message port of an actor (ractor/src/actor/actor_properties.rs) under the threads that send to
-- it and the threads that drain it, one atomic operation at a time. The word `message_admission` is
-- taken apart into its two flags and its count; the channel is open. `M` stands for boxed messages.
pub mod Ledger
pub mod Drained
use ractor.Prelude.{
  ℕ, zero, suc, ◌+◌, ◌-◌, Bool, true, false, not, ◌&&◌, ◌||◌, Option, none, some, List, [], ◌∷◌,
  if◌then◌else◌, ◌==◌,
}
use ractor.Actor.Status.{ActorStatus, draining, at_least, advance}

pub data MuxedMessage (M : Type 0) : Type 0 where
  drain : MuxedMessage M
  message : M → MuxedMessage M

pub record MessageAdmission : Type 0 where
  pub closed : Bool
  pub marker_sent : Bool
  pub count : ℕ

-- What is sent is kept newest first.
pub record ActorProperties (M : Type 0) : Type 0 where
  pub status : ActorStatus
  pub admission : MessageAdmission
  pub sent : List (MuxedMessage M)

-- Where a thread stands, by what it does next. A sender brings the message as `box_message` gives it,
-- none where that fails.
pub data Thread (M : Type 0) : Type 0 where
  checking_status admitting boxing : Option M → Thread M
  releasing : Thread M
  closing raising : Thread M
  marking pushing : Thread M
  advancing : ActorStatus → Thread M
  finished rejected : Thread M

module _ {M : Type 0} where
  unfoldable pub push : MuxedMessage M → ActorProperties M → ActorProperties M
  push m p = record p { sent = m ∷ p.sent }

  -- `send_message_unchecked` and `send_serialized`, up to the admission.
  unfoldable pub check_status : Option M → ActorProperties M → Thread M × ActorProperties M
  check_status boxed p = (if at_least draining p.status then rejected else admitting boxed, p)

  unfoldable pub try_admit_message : Option M → ActorProperties M → Thread M × ActorProperties M
  try_admit_message boxed p = if p.admission.closed then (rejected, p) else (
    boxing boxed,
    record p { admission = record (p.admission) { count = p.admission.count + 1 } },
  )

  unfoldable pub send_boxed : Option M → ActorProperties M → Thread M × ActorProperties M
  send_boxed none p = (releasing, p)
  send_boxed (some m) p = (releasing, push (message m) p)

  -- The end of a `MessageAdmission`.
  unfoldable pub drop_admission : ActorProperties M → Thread M × ActorProperties M
  drop_admission p = (
    if p.admission.closed && (p.admission.count == 1) then marking else finished,
    record p { admission = record (p.admission) { count = p.admission.count - 1 } },
  )

  unfoldable pub close_message_admission : ActorProperties M → Thread M × ActorProperties M
  close_message_admission p =
      (raising, record p { admission = record (p.admission) { closed = true } })

  unfoldable pub raise_to_draining : ActorProperties M → Thread M × ActorProperties M
  raise_to_draining p = (marking, record p { status = advance draining p.status })

  unfoldable pub send_drain_marker : ActorProperties M → Thread M × ActorProperties M
  send_drain_marker p =
      if not p.admission.closed || (not (p.admission.count == 0) || p.admission.marker_sent)
      then (finished, p)
      else (pushing, record p { admission = record (p.admission) { marker_sent = true } })

  -- One atomic operation of a thread.
  unfoldable pub step : Thread M → ActorProperties M → Thread M × ActorProperties M
  step (checking_status boxed) p = check_status boxed p
  step (admitting boxed) p = try_admit_message boxed p
  step (boxing boxed) p = send_boxed boxed p
  step releasing p = drop_admission p
  step closing p = close_message_admission p
  step raising p = raise_to_draining p
  step marking p = send_drain_marker p
  step pushing p = (finished, push drain p)
  step (advancing status) p = (finished, record p { status = advance status p.status })
  step finished p = (finished, p)
  step rejected p = (rejected, p)

  -- The thread at an index takes a step.
  unfoldable pub step_at :
      ℕ → List (Thread M) → ActorProperties M → List (Thread M) × ActorProperties M
  step_at i [] p = ([], p)
  step_at zero (t ∷ ts) p = let (t', p') = step t p in (t' ∷ ts, p')
  step_at (suc i) (t ∷ ts) p = let (ts', p') = step_at i ts p in (t ∷ ts', p')

  -- Threads that interleave as a schedule says.
  unfoldable pub interleave :
      List ℕ → List (Thread M) → ActorProperties M → List (Thread M) × ActorProperties M
  interleave [] ts p = (ts, p)
  interleave (i ∷ schedule) ts p = let (ts', p') = step_at i ts p in interleave schedule ts' p'

  -- `ActorProperties::new`, as to the port.
  unfoldable pub new_properties : ActorStatus → ActorProperties M
  new_properties status = record {
    status = status;
    admission = record { closed = false; marker_sent = false; count = 0 };
    sent = [];
  }

  -- A thread that starts: a sender, a drain, or an advance of the status.
  abbrev pub Fresh : Thread M → Type 0
  Fresh (checking_status boxed) = Unit
  Fresh closing = Unit
  Fresh (advancing status) = Unit
  Fresh _ = ⊥
