-- ===== src/Port.antt =====
-- Output ports (ractor/src/port/output.rs). `I` are the ids of actors, `M` the messages of the port,
-- and `R` those of the receivers. What an actor answers to a message is a function of those that it
-- took over the same subscription. Of the port of feature `output-port-v2` there is the whole task; of
-- the other one there is the loop of a subscription, over what its broadcast channel gives.
pub mod Segments
pub mod Batches
pub mod Fates
pub mod Broadcast
use ractor.Prelude.{
  ℕ, min, Bool, true, false, Option, none, some, List, [], ◌∷◌, ◌++◌, if◌then◌else◌, ltb, take,
  drop, is_empty,
}

-- `Filtering`: the receiver, its converter, and what it took, newest first.
pub record Subscriber (I M R : Type 0) : Type 0 where
  pub id : I
  pub filter : M → Option R
  pub accepts : List R → R → Bool
  pub received : List R

pub data OutportMessage (I M R : Type 0) : Type 0 where
  published : M → OutportMessage I M R
  set_subscriber : Option (Subscriber I M R) → OutportMessage I M R

-- The task's subscribers, and those that it let go, which the program drops.
pub record Subscribers (I M R : Type 0) : Type 0 where
  pub active : List (Subscriber I M R)
  pub ended : List (Subscriber I M R)

-- What a broadcast channel gives to a receiver.
pub data Received (M : Type 0) : Type 0 where
  value : M → Received M
  nothing closed lagged : Received M

abbrev pub max_batch_size : ℕ
max_batch_size = 32

module _ {I M R : Type 0} where
  -- `ActorReference::send_message`.
  unfoldable pub send_message : R → Subscriber I M R → Subscriber I M R × Bool
  send_message v s =
      if s.accepts s.received v then (record s { received = v ∷ s.received }, true) else (s, false)

  -- `Filtering::send`; false lets the subscriber go.
  unfoldable pub send : M → Subscriber I M R → Subscriber I M R × Bool
  send m s = elim (s.filter m) [ some v ↦ send_message v s | none ↦ (s, true) ]

  -- The messages of a segment to one subscriber, up to the first that is not sent.
  unfoldable pub serve : List M → Subscriber I M R → Subscriber I M R × Bool
  serve [] s = (s, true)
  serve (m ∷ ms) s =
      let sent : Subscriber I M R × Bool = send m s in
      let rest : Subscriber I M R × Bool = serve ms sent.0 in
      if sent.1 then rest else (sent.0, false)

  -- The loop over the subscribers: those that stay, and those that are removed.
  unfoldable pub serve_all : List M → List (Subscriber I M R) → Subscribers I M R
  serve_all ms [] = record { active = []; ended = [] }
  serve_all ms (s ∷ ss) =
      let served : Subscriber I M R × Bool = serve ms s in
      let rest : Subscribers I M R = serve_all ms ss in
      record {
        active = if served.1 then served.0 ∷ rest.active else rest.active;
        ended = if served.1 then rest.ended else served.0 ∷ rest.ended;
      }

  unfoldable pub dispatch_segment : List M → Subscribers I M R → Subscribers I M R
  dispatch_segment ms p =
      let served : Subscribers I M R = serve_all ms p.active in
      if is_empty ms then p else record { active = served.active; ended = p.ended ++ served.ended }

  unfoldable pub push_subscriber : Subscriber I M R → Subscribers I M R → Subscribers I M R
  push_subscriber s p = record p { active = p.active ++ (s ∷ []) }

module _ {I M R : Type 0} (dec : Discrete I) where
  -- The first subscription of the same actor gives way; none where there is none.
  unfoldable pub replace_subscriber :
      Subscriber I M R
      → List (Subscriber I M R)
      → Option (List (Subscriber I M R) × Subscriber I M R)
  replace_subscriber s [] = none
  replace_subscriber s (t ∷ ts) = elim (dec t.id s.id) [
    | yes _ ↦ some (s ∷ ts, t)
    | no _ ↦ elim (replace_subscriber s ts) [ some (us, old) ↦ some (t ∷ us, old) | none ↦ none ]
  ]

  unfoldable pub apply_replaced :
      Option (List (Subscriber I M R) × Subscriber I M R)
      → Subscriber I M R
      → Subscribers I M R
      → Subscribers I M R
  apply_replaced (some (ts, old)) s p = record { active = ts; ended = p.ended ++ (old ∷ []) }
  apply_replaced none s p = push_subscriber s p

  unfoldable pub apply_subscriber : Bool → Subscriber I M R → Subscribers I M R → Subscribers I M R
  apply_subscriber true s p = push_subscriber s p
  apply_subscriber false s p = apply_replaced (replace_subscriber s p.active) s p

  -- A message that is not published, `take`n out of its slot.
  unfoldable pub apply_taken :
      Bool → Option (Subscriber I M R) → Subscribers I M R → Subscribers I M R
  apply_taken duplicates (some s) p = apply_subscriber duplicates s p
  apply_taken duplicates none p = p

  -- `dispatch_batch` from a segment on, of which the search for its end has passed some messages.
  unfoldable pub dispatch_from :
      Bool → List M → List (OutportMessage I M R) → Subscribers I M R → Subscribers I M R
  dispatch_from duplicates segment [] p = dispatch_segment segment p
  dispatch_from duplicates segment (published m ∷ batch) p =
      dispatch_from duplicates (segment ++ (m ∷ [])) batch p
  dispatch_from duplicates segment (set_subscriber taken ∷ batch) p =
      dispatch_from duplicates [] batch (apply_taken duplicates taken (dispatch_segment segment p))

  unfoldable pub dispatch_batch :
      Bool → List (OutportMessage I M R) → Subscribers I M R → Subscribers I M R
  dispatch_batch duplicates = dispatch_from duplicates []

-- `rx.len().clamp(1, MAX_BATCH_SIZE)`.
unfoldable pub batch_limit : ℕ → ℕ
batch_limit len = if ltb len 1 then 1 else min len max_batch_size

module _ {I M R : Type 0} (dec : Discrete I) (duplicates : Bool) where
  -- The task, over what is sent to the port until all its senders are gone. A turn reads the number
  -- of messages that wait, and takes at most as many as its limit; without a message it is over.
  unfoldable pub run_task :
      List ℕ
      → List (OutportMessage I M R)
      → Subscribers I M R
      → List (OutportMessage I M R) × Subscribers I M R
  run_task [] sent p = (sent, p)
  run_task (len ∷ lens) sent p =
      if is_empty sent
      then ([], p)
      else run_task lens (drop (batch_limit len) sent)
          (dispatch_batch dec duplicates (take (batch_limit len) sent) p)

abbrev pub no_subscribers : {I M R : Type 0} → Subscribers I M R
no_subscribers = record { active = []; ended = [] }

module _ {I M R : Type 0} where
  -- The loop of `OutputPortSubscription::new`: the subscription, and whether it goes on.
  unfoldable pub subscription : List (Received M) → Subscriber I M R → Subscriber I M R × Bool
  subscription [] s = (s, true)
  subscription (value m ∷ rs) s =
      let sent : Subscriber I M R × Bool = send m s in
      let rest : Subscriber I M R × Bool = subscription rs sent.0 in
      if sent.1 then rest else (sent.0, false)
  subscription (nothing ∷ rs) s = (s, false)
  subscription (closed ∷ rs) s = (s, false)
  subscription (lagged ∷ rs) s = subscription rs s

  -- `OutputPort::subscribe`: dead subscriptions go, and the new one comes last.
  unfoldable pub retain_live : List (Subscriber I M R × Bool) → List (Subscriber I M R × Bool)
  retain_live [] = []
  retain_live ((s, live) ∷ ss) = if live then (s, live) ∷ retain_live ss else retain_live ss

  unfoldable pub subscribe :
      Subscriber I M R → List (Subscriber I M R × Bool) → List (Subscriber I M R × Bool)
  subscribe s subs = retain_live subs ++ ((s, true) ∷ [])
