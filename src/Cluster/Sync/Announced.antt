-- ===== src/Cluster/Sync/Announced.antt =====
-- Which local actors a peer reaches over a session (ractor_cluster/src/node/node_session.rs), in every run.
use ractor.Prelude.{
  ℕ, ◌≡◌, refl, ◌∙◌, Bool, true, false, Option, none, some, List, [], ◌∷◌, ◌++◌, arith,
  if◌then◌else◌, ℕ_discrete, is_empty, inl, inr, Bool-cases,
}
use ractor.Prelude.Map.{Set, lookup, contains_key}
use ractor.Cluster.Sync.{
  ReadyState, open_state, sync_sent, sync_received, ready, SyncState, SyncEvent, send_pg_join,
  send_ready, election_lost, deliver_cast, deliver_call, deliver_reply, join_scoped, leave_scoped,
  NodeMessage, cast, call, reply, ControlMessage, peer_ready, spawn, terminate, ping, pg_join,
  pg_leave, authorized_local_actor, deliver_authorized, reply_to, node_msg, handle_node,
  keep_spawned, get_or_spawn_remote_actor, spawn_each, terminate_one, terminate_each, known_cells,
  on_ready, control_msg, handle_control, advertise, ready_after_sync, announce_groups, sync_ready,
  after_authenticated, authenticate, pid_spawned, pid_terminated, SyncInput, node, control,
  authenticating, spawning, terminating, sync_step, run_sync, new_session,
}
use ractor.Cluster.Sync.Told.{
  withdraw, Below, told, heeds, all_heed, told_all, Proper, insert-Below, remove-Below,
  shrunk-Below, advertise-Below, silent-Proper, quiet-Proper, guarded-Proper, then_Proper,
}

spawn_each-pids :
    (spawned : ℕ → Option ℕ) (pids : List ℕ) (s : SyncState)
    → (spawn_each spawned pids s).1.advertised_local_pids ≡ s.advertised_local_pids
unfolding spawn_each get_or_spawn_remote_actor keep_spawned
spawn_each-pids spawned [] s = refl
spawn_each-pids spawned (pid ∷ pids) s =
    spawn_each-pids spawned pids (get_or_spawn_remote_actor spawned pid s).1
    ∙ kept (lookup ℕ_discrete pid s.remote_actors) (spawned pid)
  where
    kept :
        (found fresh : Option ℕ)
        → (keep_spawned pid found fresh s).1.advertised_local_pids ≡ s.advertised_local_pids
    kept (some actor) fresh = refl
    kept none none = refl
    kept none (some actor) = refl

module _ {N W : Type 0} where
  authorized-Proper :
      (e : SyncEvent N W) (remotable : ℕ → Bool) (pid : ℕ) (s : SyncState) (m : Set ℕ)
      → ((k : Set ℕ) → heeds e k ≡ contains_key ℕ_discrete pid k)
      → ((k : Set ℕ) → told e k ≡ k)
      → Below s.advertised_local_pids m
      → Proper {N = N} {W = W} (deliver_authorized e (authorized_local_actor remotable pid s)) m
  unfolding deliver_authorized authorized_local_actor all_heed told_all
  authorized-Proper e remotable pid s m heeding quiet h =
      elim (Bool-cases (contains_key ℕ_discrete pid s.advertised_local_pids)) [
        | inr k ↦ rw k (record { heeded = refl; told_of = h })
        | inl k ↦ elim (Bool-cases (remotable pid)) [
          | inl r ↦
              rw (k, r)
                (record { heeded = ground (arith, heeding m, h pid k); told_of = rw (quiet m) h })
          | inr r ↦
              rw (k, r)
                (record { heeded = refl; told_of = shrunk-Below pid s.advertised_local_pids m h })
        ]
      ]

  handle_node-Proper :
      (remotable : ℕ → Bool) (msg : NodeMessage W) (s : SyncState) (m : Set ℕ)
      → Below s.advertised_local_pids m
      → Proper {N = N} {W = W} (handle_node remotable msg s) m
  unfolding handle_node node_msg reply_to all_heed told_all
  handle_node-Proper remotable msg s m h =
      guarded-Proper s.authenticated (node_msg remotable msg s) s m (go msg) h
    where
      replied :
          (o : Option ℕ) (tag : ℕ) (what : W) → Proper {N = N} {W = W} (s, reply_to o tag what) m
      replied none tag what = quiet-Proper s [] m refl refl h
      replied (some actor) tag what =
          quiet-Proper s (deliver_reply actor tag what ∷ []) m refl refl h

      go : (msg : NodeMessage W) → Proper {N = N} {W = W} (node_msg remotable msg s) m
      go (cast to what) =
          authorized-Proper (deliver_cast to what) remotable to s m (λ k. refl) (λ k. refl) h
      go (call to tag what) =
          authorized-Proper (deliver_call to tag what) remotable to s m (λ k. refl) (λ k. refl) h
      go (reply to tag what) = replied (lookup ℕ_discrete to s.remote_actors) tag what

  terminate_each-quiet :
      (pids : List ℕ) (s : SyncState) (m : Set ℕ)
      → Below s.advertised_local_pids m
      → Proper {N = N} {W = W} (terminate_each {N = N} {W = W} pids s) m
  unfolding terminate_each terminate_one all_heed told_all
  terminate_each-quiet [] s m h = silent-Proper s m h
  terminate_each-quiet (pid ∷ pids) s m h =
      go (lookup ℕ_discrete pid s.remote_actors) (λ s' h'. terminate_each-quiet pids s' m h')
    where
      go :
          (o : Option ℕ)
          → ((s' : SyncState)
              → Below s'.advertised_local_pids m
              → Proper {N = N} {W = W} (terminate_each {N = N} {W = W} pids s') m)
          → Proper {N = N} {W = W}
              (
                (terminate_each {N = N} {W = W} pids (terminate_one {N = N} {W = W} o pid s).0).0,
                (terminate_one o pid s).1
                    ++ (terminate_each pids (terminate_one {N = N} {W = W} o pid s).0).1,
              )
              m
      go none after =
          then_Proper (terminate_one none pid s) (terminate_each pids s) m refl (after s h)
      go (some actor) after =
          let one : SyncState × List (SyncEvent N W) = terminate_one (some actor) pid s in
          then_Proper one (terminate_each pids one.0) m refl (after one.0 h)

  control_msg-Proper :
      (spawned : ℕ → Option ℕ) (msg : ControlMessage N) (s : SyncState) (m : Set ℕ)
      → Below s.advertised_local_pids m
      → Proper {N = N} {W = W} (control_msg {N = N} {W = W} spawned msg s) m
  unfolding control_msg on_ready all_heed told_all
  control_msg-Proper spawned peer_ready s m h = go s.ready_state
    where
      go : (r : ReadyState) → Proper {N = N} {W = W} (on_ready r s) m
      go open_state = record { heeded = refl; told_of = h }
      go sync_sent = record { heeded = refl; told_of = h }
      go sync_received = record { heeded = refl; told_of = h }
      go ready = record { heeded = refl; told_of = h }
  control_msg-Proper spawned (spawn pids) s m h = record {
    heeded = refl;
    told_of = rw (spawn_each-pids spawned pids s) h;
  }
  control_msg-Proper spawned (terminate pids) s m h = terminate_each-quiet pids s m h
  control_msg-Proper spawned (ping timestamp) s m h = record { heeded = refl; told_of = h }
  control_msg-Proper spawned (pg_join scope group pids) s m h =
      let r : List ℕ × SyncState = spawn_each spawned pids s in
      go r (rw (spawn_each-pids spawned pids s) h)
    where
      go :
          (r : List ℕ × SyncState)
          → Below r.1.advertised_local_pids m
          → Proper {N = N} {W = W}
              (r.1, if is_empty r.0 then [] else join_scoped scope group r.0 ∷ [])
              m
      go ([], s') k = record { heeded = refl; told_of = k }
      go (c ∷ cells, s') k = record { heeded = refl; told_of = k }
  control_msg-Proper spawned (pg_leave scope group pids) s m h = go (known_cells pids s)
    where
      go :
          (cells : List ℕ)
          → Proper {N = N} {W = W}
              (s, if is_empty cells then [] else leave_scoped scope group cells ∷ [])
              m
      go [] = record { heeded = refl; told_of = h }
      go (c ∷ cells) = record { heeded = refl; told_of = h }

  announced-Proper :
      (groups : List (N × N × List ℕ)) (r : SyncState × List (SyncEvent N W)) (m : Set ℕ)
      → Proper {N = N} {W = W} r m
      → Proper {N = N} {W = W} (r.0, announce_groups groups ++ r.1) m
  unfolding announce_groups all_heed told_all
  announced-Proper [] r m p = p
  announced-Proper ((scope, group, pids) ∷ groups) r m p = go pids (announced-Proper groups r m p)
    where
      go :
          (pids : List ℕ)
          → Proper {N = N} {W = W} (r.0, announce_groups groups ++ r.1) m
          → Proper {N = N} {W = W}
              (
                r.0,
                (if is_empty pids
                      then announce_groups groups
                      else send_pg_join scope group pids ∷ announce_groups groups)
                    ++ r.1,
              )
              m
      go [] q = q
      go (pid ∷ pids) q = record { heeded = q.heeded; told_of = q.told_of }

  sync_ready-Proper :
      (o : Option ReadyState) (s : SyncState) (m : Set ℕ)
      → Below s.advertised_local_pids m
      → Proper {N = N} {W = W}
          ((sync_ready {N = N} {W = W} o s).0, send_ready ∷ (sync_ready o s).1)
          m
  unfolding sync_ready all_heed told_all
  sync_ready-Proper none s m h = record { heeded = refl; told_of = h }
  sync_ready-Proper (some open_state) s m h = record { heeded = refl; told_of = h }
  sync_ready-Proper (some sync_sent) s m h = record { heeded = refl; told_of = h }
  sync_ready-Proper (some sync_received) s m h = record { heeded = refl; told_of = h }
  sync_ready-Proper (some ready) s m h = record { heeded = refl; told_of = h }

  after_authenticated-Proper :
      (pids : List ℕ) (groups : List (N × N × List ℕ)) (s : SyncState) (m : Set ℕ)
      → Below s.advertised_local_pids m
      → Proper {N = N} {W = W} (after_authenticated {N = N} {W = W} pids groups s) m
  unfolding after_authenticated advertise all_heed told_all
  after_authenticated-Proper [] groups s m h =
      announced-Proper groups _ m (sync_ready-Proper (ready_after_sync s.ready_state) s m h)
  after_authenticated-Proper (pid ∷ pids) groups s m h =
      let known : SyncState = record s {
        advertised_local_pids = advertise (pid ∷ pids) s.advertised_local_pids;
      } in
      let rest : Proper {N = N} {W = W} _ (advertise (pid ∷ pids) m) = announced-Proper groups _ _ (
        sync_ready-Proper (ready_after_sync s.ready_state) known _
          (advertise-Below (pid ∷ pids) s.advertised_local_pids m h)) in
      record { heeded = rest.heeded; told_of = rest.told_of }

  authenticate-Proper :
      (elected : Bool) (pids : List ℕ) (groups : List (N × N × List ℕ)) (s : SyncState) (m : Set ℕ)
      → Below s.advertised_local_pids m
      → Proper {N = N} {W = W} (authenticate {N = N} {W = W} elected pids groups s) m
  unfolding authenticate all_heed told_all
  authenticate-Proper elected pids groups s m h = go s.authenticated elected
    where
      go :
          (done elected : Bool)
          → Proper {N = N} {W = W}
              (if done
                then (s, [])
                else if elected
                then after_authenticated pids groups (record s { authenticated = true })
                else (record s { authenticated = true }, election_lost ∷ []))
              m
      go true elected = silent-Proper s m h
      go false true = after_authenticated-Proper pids groups (record s { authenticated = true }) m h
      go false false = record { heeded = refl; told_of = h }

  pid_spawned-Proper :
      (remoting : Bool) (pid : ℕ) (s : SyncState) (m : Set ℕ)
      → Below s.advertised_local_pids m
      → Proper {N = N} {W = W} (pid_spawned {N = N} {W = W} remoting pid s) m
  unfolding pid_spawned advertise all_heed told_all
  pid_spawned-Proper true pid s m h = record {
    heeded = refl;
    told_of = insert-Below pid s.advertised_local_pids m h;
  }
  pid_spawned-Proper false pid s m h = record { heeded = refl; told_of = h }

  pid_terminated-Proper :
      (remoting : Bool) (pid : ℕ) (s : SyncState) (m : Set ℕ)
      → Below s.advertised_local_pids m
      → Proper {N = N} {W = W} (pid_terminated {N = N} {W = W} remoting pid s) m
  unfolding pid_terminated withdraw all_heed told_all
  pid_terminated-Proper true pid s m h = record {
    heeded = refl;
    told_of = remove-Below pid s.advertised_local_pids m h;
  }
  pid_terminated-Proper false pid s m h = record { heeded = refl; told_of = h }

  sync_step-Proper :
      (i : SyncInput N W) (s : SyncState) (m : Set ℕ)
      → Below s.advertised_local_pids m
      → Proper {N = N} {W = W} (sync_step i s) m
  unfolding sync_step handle_control
  sync_step-Proper (node remotable msg) s m h = handle_node-Proper remotable msg s m h
  sync_step-Proper (control spawned msg) s m h =
      guarded-Proper s.authenticated (control_msg spawned msg s) s m
        (control_msg-Proper spawned msg s m h) h
  sync_step-Proper (authenticating elected pids groups) s m h =
      authenticate-Proper elected pids groups s m h
  sync_step-Proper (spawning remoting pid) s m h = pid_spawned-Proper remoting pid s m h
  sync_step-Proper (terminating remoting pid) s m h = pid_terminated-Proper remoting pid s m h

  run_sync-Proper :
      (is : List (SyncInput N W)) (s : SyncState) (m : Set ℕ)
      → Below s.advertised_local_pids m
      → Proper {N = N} {W = W} (run_sync is s) m
  unfolding run_sync
  run_sync-Proper [] s m h = silent-Proper s m h
  run_sync-Proper (i ∷ is) s m h =
      let one : Proper {N = N} {W = W} (sync_step i s) m = sync_step-Proper i s m h in
      then_Proper (sync_step i s) (run_sync is (sync_step i s).0) m one.heeded
        (run_sync-Proper is (sync_step i s).0 _ one.told_of)

  -- Over every run of a new session, whatever its peer sends and whichever actors start and stop, a
  -- cast or a call reaches a local actor only if at that point the session has told the peer of the
  -- actor's pid, by the synchronisation or when the actor started, and has not withdrawn it since.
  pub run_sync-all_heed :
      (is : List (SyncInput N W)) → all_heed (run_sync is new_session).1 [] ≡ true
  run_sync-all_heed is = (run_sync-Proper is new_session [] (λ p e. e)).heeded
