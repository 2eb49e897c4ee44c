-- ===== src/Tests/Sessions.antt =====
-- What a session exchanges with its peer.
use ractor.Prelude.{List, ℕ, true, some, [], ◌∷◌, ◌≡◌}
use ractor.Cluster.Sync.{
  SyncInput, run_sync, new_session, node, control, authenticating, spawning, terminating, cast,
  call, peer_ready, pg_join,
}
use ractor.Cluster.Sync.Told.{all_heed}
use ractor.Cluster.Sync.Started.{announcements, panics, readiness, run_sync-ready}
use ractor.Cluster.Sync.Announced.{run_sync-all_heed}

-- Actor 5 is told of by the synchronisation, 7 when it starts, 8 not at all; 5 is withdrawn.
abbrev events : List (SyncInput ℕ ℕ)
events =
    node (λ p. true) (cast 5 0)
    ∷ authenticating true (5 ∷ []) ((1, 2, 5 ∷ []) ∷ [])
    ∷ node (λ p. true) (cast 5 10)
    ∷ control (λ p. some p) peer_ready
    ∷ spawning true 7
    ∷ control (λ p. some p) (pg_join 1 2 (40 ∷ []))
    ∷ terminating true 5
    ∷ node (λ p. true) (call 7 1 11)
    ∷ node (λ p. true) (call 5 2 12)
    ∷ node (λ p. true) (cast 8 13)
    ∷ []

run_sync-all_heed_example : all_heed (run_sync events new_session).1 [] ≡ true
run_sync-all_heed_example = run_sync-all_heed events

run_sync-ready_example :
    (announcements (run_sync events new_session).1
      ≡ readiness (run_sync events new_session).0.ready_state)
    × (panics (run_sync events new_session).1 ≡ 0)
run_sync-ready_example = run_sync-ready events
