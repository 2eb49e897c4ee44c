-- ===== src/Port/Broadcast.antt =====
-- The subscriptions of the port without `output-port-v2` (ractor/src/port/output.rs), against those of
-- the other port.
use ractor.Prelude.{◌≡◌, refl, Bool, true, false, ◌&&◌, List, [], ◌∷◌, arith}
use ractor.Port.{Subscriber, Received, value, nothing, closed, lagged, send, serve, subscription}

-- The values that the channel gives before its end.
abbrev pub heard : {M : Type 0} → List (Received M) → List M
heard [] = []
heard (value m ∷ rs) = m ∷ heard rs
heard (nothing ∷ rs) = []
heard (closed ∷ rs) = []
heard (lagged ∷ rs) = heard rs

abbrev pub goes_on : {M : Type 0} → List (Received M) → Bool
goes_on [] = true
goes_on (value m ∷ rs) = goes_on rs
goes_on (nothing ∷ rs) = false
goes_on (closed ∷ rs) = false
goes_on (lagged ∷ rs) = goes_on rs

-- A subscription gives its actor what the other port gives it of the values that the channel gave
-- before its end, and is over exactly if that port lets the subscriber go, or the channel has ended.
pub subscription-serve :
    {I M R : Type 0} (rs : List (Received M)) (s : Subscriber I M R)
    → ((subscription rs s).0 ≡ (serve (heard rs) s).0)
      × ((subscription rs s).1 ≡ (serve (heard rs) s).1 && goes_on rs)
unfolding subscription serve
subscription-serve [] s = (refl, refl)
subscription-serve (value m ∷ rs) s = ground (arith, subscription-serve rs (send m s).0)
subscription-serve (nothing ∷ rs) s = (refl, refl)
subscription-serve (closed ∷ rs) s = (refl, refl)
subscription-serve (lagged ∷ rs) s = subscription-serve rs s
