-- ===== src/Cluster/Sync/Started.antt =====
-- How often a session (ractor_cluster/src/node/node_session.rs) announces to its node that it is ready.
use ractor.Prelude.{
  ℕ, ◌+◌, ◌≡◌, refl, ap, ◌∙◌, sym, Bool, true, false, Option, none, some, List, [], ◌∷◌, ◌++◌,
  arith, if◌then◌else◌, ℕ_discrete, is_empty,
}
use ractor.Prelude.Map.{lookup}
use ractor.Cluster.Sync.{
  ReadyState, open_state, sync_sent, sync_received, ready, SyncState, SyncEvent, send_spawn,
  send_terminate, send_pg_join, send_pong, send_ready, connection_ready, election_lost, unreachable,
  stop_remote, deliver_cast, deliver_call, deliver_reply, join_scoped, leave_scoped, NodeMessage,
  cast, call, reply, ControlMessage, peer_ready, spawn, terminate, ping, pg_join, pg_leave,
  authorized_local_actor, deliver_authorized, reply_to, node_msg, handle_node, keep_spawned,
  get_or_spawn_remote_actor, spawn_each, terminate_one, terminate_each, on_ready, control_msg,
  handle_control, ready_after_sync, announce_groups, sync_ready, after_authenticated, authenticate,
  pid_spawned, pid_terminated, SyncInput, node, control, authenticating, spawning, terminating,
  sync_step, run_sync, new_session,
}

-- One for a session that is ready.
abbrev pub readiness : ReadyState → ℕ
readiness ready = 1
readiness _ = 0

module _ {N W : Type 0} where
  abbrev pub announcement : SyncEvent N W → ℕ
  announcement connection_ready = 1
  announcement _ = 0

  abbrev pub panic : SyncEvent N W → ℕ
  panic unreachable = 1
  panic _ = 0

  unfoldable pub announcements : List (SyncEvent N W) → ℕ
  announcements [] = 0
  announcements (e ∷ es) = announcement e + announcements es

  unfoldable pub panics : List (SyncEvent N W) → ℕ
  panics [] = 0
  panics (e ∷ es) = panic e + panics es

  announcements-append :
      (xs ys : List (SyncEvent N W))
      → announcements (xs ++ ys) ≡ announcements xs + announcements ys
  unfolding announcements
  announcements-append [] ys = ground (arith)
  announcements-append (x ∷ xs) ys = ground (arith, announcements-append xs ys)

  panics-append : (xs ys : List (SyncEvent N W)) → panics (xs ++ ys) ≡ panics xs + panics ys
  unfolding panics
  panics-append [] ys = ground (arith)
  panics-append (x ∷ xs) ys = ground (arith, panics-append xs ys)

  -- Events that neither announce nor panic.
  record Plain (es : List (SyncEvent N W)) : Type 0 where
    unannounced : announcements es ≡ 0
    no_panic : panics es ≡ 0

  append-Plain : (xs ys : List (SyncEvent N W)) → Plain xs → Plain ys → Plain (xs ++ ys)
  append-Plain xs ys p q = record {
    unannounced = ground (arith, announcements-append xs ys, p.unannounced, q.unannounced);
    no_panic = ground (arith, panics-append xs ys, p.no_panic, q.no_panic);
  }

-- Before the handshake is over, the synchronisation has not begun.
abbrev pub Prepared : SyncState → Type 0
Prepared s = s.authenticated ≡ false → s.ready_state ≡ open_state

-- What a handler leaves as it is.
record Kept (s s' : SyncState) : Type 0 where
  same_auth : s'.authenticated ≡ s.authenticated
  same_ready : s'.ready_state ≡ s.ready_state

spawn_each-Kept :
    (spawned : ℕ → Option ℕ) (pids : List ℕ) (s : SyncState) → Kept s (spawn_each spawned pids s).1
unfolding spawn_each get_or_spawn_remote_actor keep_spawned
spawn_each-Kept spawned [] s = record { same_auth = refl; same_ready = refl }
spawn_each-Kept spawned (pid ∷ pids) s =
    let rest : Kept _ _ =
      spawn_each-Kept spawned pids (get_or_spawn_remote_actor spawned pid s).1 in
    let one : Kept _ _ = kept (lookup ℕ_discrete pid s.remote_actors) (spawned pid) in
    record {
      same_auth = rest.same_auth ∙ one.same_auth;
      same_ready = rest.same_ready ∙ one.same_ready;
    }
  where
    kept : (found fresh : Option ℕ) → Kept s (keep_spawned pid found fresh s).1
    kept (some actor) fresh = record { same_auth = refl; same_ready = refl }
    kept none none = record { same_auth = refl; same_ready = refl }
    kept none (some actor) = record { same_auth = refl; same_ready = refl }

terminate_one-Kept :
    (N W : Type 0) (o : Option ℕ) (pid : ℕ) (s : SyncState)
    → Kept s (terminate_one {N = N} {W = W} o pid s).0
unfolding terminate_one
terminate_one-Kept N W none pid s = record { same_auth = refl; same_ready = refl }
terminate_one-Kept N W (some actor) pid s = record { same_auth = refl; same_ready = refl }

terminate_each-Kept :
    (N W : Type 0) (pids : List ℕ) (s : SyncState)
    → Kept s (terminate_each {N = N} {W = W} pids s).0
unfolding terminate_each
terminate_each-Kept N W [] s = record { same_auth = refl; same_ready = refl }
terminate_each-Kept N W (pid ∷ pids) s =
    let one : Kept _ _ = terminate_one-Kept N W (lookup ℕ_discrete pid s.remote_actors) pid s in
    let rest : Kept _ _ = terminate_each-Kept N W pids _ in
    record {
      same_auth = rest.same_auth ∙ one.same_auth;
      same_ready = rest.same_ready ∙ one.same_ready;
    }

module _ {N W : Type 0} where
  -- The announcements of a handler, whose result is `r`, are as many as the session became ready.
  record Started (s : SyncState) (r : SyncState × List (SyncEvent N W)) : Type 0 where
    counted : announcements r.1 + readiness s.ready_state ≡ readiness r.0.ready_state
    calm : panics r.1 ≡ 0
    prepared : Prepared r.0

  Kept-Started :
      (s : SyncState) (r : SyncState × List (SyncEvent N W))
      → Prepared s
      → Kept s r.0
      → Plain r.1
      → Started s r
  Kept-Started s r h k p = record {
    counted = ground (arith, p.unannounced, ap readiness k.same_ready);
    calm = p.no_panic;
    prepared = λ a. k.same_ready ∙ h (sym k.same_auth ∙ a);
  }

  silent-Plain : Plain {N = N} {W = W} []
  unfolding announcements panics
  silent-Plain = record { unannounced = refl; no_panic = refl }

  then_Plain :
      (e : SyncEvent N W) (es : List (SyncEvent N W))
      → announcement e ≡ 0
      → panic e ≡ 0
      → Plain es
      → Plain (e ∷ es)
  unfolding announcements panics
  then_Plain e es a b p = record {
    unannounced = ground (arith, a, p.unannounced);
    no_panic = ground (arith, b, p.no_panic);
  }

  perhaps-Plain :
      (b : Bool) (e : SyncEvent N W)
      → announcement e ≡ 0
      → panic e ≡ 0
      → Plain (if b then e ∷ [] else [])
  perhaps-Plain true e a p = then_Plain e [] a p silent-Plain
  perhaps-Plain false e a p = silent-Plain

  unless-Plain :
      (b : Bool) (e : SyncEvent N W)
      → announcement e ≡ 0
      → panic e ≡ 0
      → Plain (if b then [] else e ∷ [])
  unless-Plain true e a p = silent-Plain
  unless-Plain false e a p = then_Plain e [] a p silent-Plain

  guarded-Started :
      (b : Bool) (r : SyncState × List (SyncEvent N W)) (s : SyncState)
      → Prepared s
      → (b ≡ true → Started s r)
      → Started s (if b then r else (s, []))
  guarded-Started true r s h k = k refl
  guarded-Started false r s h k =
      Kept-Started s (s, []) h (record { same_auth = refl; same_ready = refl }) silent-Plain

  node_msg-Started :
      (remotable : ℕ → Bool) (msg : NodeMessage W) (s : SyncState)
      → Prepared s
      → Started s (node_msg remotable msg s)
  unfolding node_msg deliver_authorized authorized_local_actor reply_to
  node_msg-Started remotable (cast to what) s h =
      Kept-Started s _ h (record { same_auth = refl; same_ready = refl })
        (perhaps-Plain _ (deliver_cast to what) refl refl)
  node_msg-Started remotable (call to tag what) s h =
      Kept-Started s _ h (record { same_auth = refl; same_ready = refl })
        (perhaps-Plain _ (deliver_call to tag what) refl refl)
  node_msg-Started remotable (reply to tag what) s h =
      Kept-Started s _ h (record { same_auth = refl; same_ready = refl })
        (go (lookup ℕ_discrete to s.remote_actors))
    where
      go : (o : Option ℕ) → Plain {N = N} {W = W} (reply_to o tag what)
      go none = silent-Plain
      go (some actor) = then_Plain (deliver_reply actor tag what) [] refl refl silent-Plain

  terminate_one-Plain :
      (o : Option ℕ) (pid : ℕ) (s : SyncState) → Plain {N = N} {W = W} (terminate_one o pid s).1
  unfolding terminate_one
  terminate_one-Plain none pid s = silent-Plain
  terminate_one-Plain (some actor) pid s = then_Plain (stop_remote actor) [] refl refl silent-Plain

  terminate_each-Plain :
      (pids : List ℕ) (s : SyncState) → Plain {N = N} {W = W} (terminate_each pids s).1
  unfolding terminate_each
  terminate_each-Plain [] s = silent-Plain
  terminate_each-Plain (pid ∷ pids) s =
      append-Plain _ _ (terminate_one-Plain (lookup ℕ_discrete pid s.remote_actors) pid s)
        (terminate_each-Plain pids _)

  control_msg-Started :
      (spawned : ℕ → Option ℕ) (msg : ControlMessage N) (s : SyncState)
      → Prepared s
      → s.authenticated ≡ true
      → Started s (control_msg spawned msg s)
  unfolding control_msg on_ready announcements panics
  control_msg-Started spawned peer_ready s h a = go s.ready_state refl
    where
      go : (r : ReadyState) → s.ready_state ≡ r → Started s (on_ready r s)
      go open_state e = record {
        counted = ground (arith, ap readiness e);
        calm = refl;
        prepared = λ f. ground (arith, a, f);
      }
      go sync_sent e = record {
        counted = ground (arith, ap readiness e);
        calm = refl;
        prepared = λ f. ground (arith, a, f);
      }
      go sync_received e =
          Kept-Started s (s, []) h (record { same_auth = refl; same_ready = refl }) silent-Plain
      go ready e =
          Kept-Started s (s, []) h (record { same_auth = refl; same_ready = refl }) silent-Plain
  control_msg-Started spawned (spawn pids) s h a =
      Kept-Started s _ h (spawn_each-Kept spawned pids s) silent-Plain
  control_msg-Started spawned (terminate pids) s h a =
      Kept-Started s _ h (terminate_each-Kept N W pids s) (terminate_each-Plain pids s)
  control_msg-Started spawned (ping timestamp) s h a =
      Kept-Started s _ h (record { same_auth = refl; same_ready = refl })
        (then_Plain (send_pong timestamp) [] refl refl silent-Plain)
  control_msg-Started spawned (pg_join scope group pids) s h a =
      Kept-Started s _ h (spawn_each-Kept spawned pids s)
        (unless-Plain _ (join_scoped scope group _) refl refl)
  control_msg-Started spawned (pg_leave scope group pids) s h a =
      Kept-Started s _ h (record { same_auth = refl; same_ready = refl })
        (unless-Plain _ (leave_scoped scope group _) refl refl)

  announce_groups-Plain :
      (groups : List (N × N × List ℕ)) → Plain {N = N} {W = W} (announce_groups groups)
  unfolding announce_groups
  announce_groups-Plain [] = silent-Plain
  announce_groups-Plain ((scope, group, pids) ∷ groups) =
      go (is_empty pids) (announce_groups-Plain groups)
    where
      go :
          (b : Bool)
          → Plain {N = N} {W = W} (announce_groups groups)
          → Plain {N = N} {W = W} (
              if b
              then announce_groups groups
              else send_pg_join scope group pids ∷ announce_groups groups)
      go true p = p
      go false p = then_Plain (send_pg_join scope group pids) _ refl refl p

  after_authenticated-Started :
      (pids : List ℕ) (groups : List (N × N × List ℕ)) (s : SyncState)
      → s.ready_state ≡ open_state
      → Started s (after_authenticated pids groups (record s { authenticated = true }))
  unfolding after_authenticated ready_after_sync sync_ready
  after_authenticated-Started pids groups s e =
      let p : Plain {N = N} {W = W} (
          (if is_empty pids then [] else send_spawn pids ∷ [])
          ++ (announce_groups groups ++ (send_ready ∷ []))) =
        append-Plain _ _ (unless-Plain (is_empty pids) (send_spawn pids) refl refl) (
          append-Plain _ _ (announce_groups-Plain groups)
            (then_Plain send_ready [] refl refl silent-Plain)) in
      rw (ap ready_after_sync e) (record {
        counted = ground (arith, p.unannounced, ap readiness e);
        calm = p.no_panic;
        prepared = λ f. ground (arith, f);
      })

  authenticate-Started :
      (elected : Bool) (pids : List ℕ) (groups : List (N × N × List ℕ)) (s : SyncState)
      → Prepared s
      → Started s (authenticate elected pids groups s)
  unfolding authenticate announcements panics
  authenticate-Started elected pids groups s h = go s.authenticated elected h
    where
      go :
          (done elected : Bool)
          → (done ≡ false → s.ready_state ≡ open_state)
          → Started s (
              if done
              then (s, [])
              else if elected
              then after_authenticated pids groups (record s { authenticated = true })
              else (record s { authenticated = true }, election_lost ∷ []))
      go true elected k =
          Kept-Started s (s, []) h (record { same_auth = refl; same_ready = refl }) silent-Plain
      go false true k = after_authenticated-Started pids groups s (k refl)
      go false false k = record {
        counted = ground (arith);
        calm = refl;
        prepared = λ f. ground (arith, f);
      }

  sync_step-Started : (i : SyncInput N W) (s : SyncState) → Prepared s → Started s (sync_step i s)
  unfolding sync_step handle_node handle_control pid_spawned pid_terminated
  sync_step-Started (node remotable msg) s h =
      guarded-Started s.authenticated (node_msg remotable msg s) s h
        (λ a. node_msg-Started remotable msg s h)
  sync_step-Started (control spawned msg) s h =
      guarded-Started s.authenticated (control_msg spawned msg s) s h
        (control_msg-Started spawned msg s h)
  sync_step-Started (authenticating elected pids groups) s h =
      authenticate-Started elected pids groups s h
  sync_step-Started (spawning remoting pid) s h =
      Kept-Started s _ h (record { same_auth = refl; same_ready = refl })
        (perhaps-Plain remoting (send_spawn (pid ∷ [])) refl refl)
  sync_step-Started (terminating remoting pid) s h =
      Kept-Started s _ h (record { same_auth = refl; same_ready = refl })
        (perhaps-Plain remoting (send_terminate (pid ∷ [])) refl refl)

  run_sync-Started :
      (is : List (SyncInput N W)) (s : SyncState) → Prepared s → Started s (run_sync is s)
  unfolding run_sync
  run_sync-Started [] s h =
      Kept-Started s (s, []) h (record { same_auth = refl; same_ready = refl }) silent-Plain
  run_sync-Started (i ∷ is) s h =
      let one : Started s (sync_step i s) = sync_step-Started i s h in
      let rest : Started (sync_step i s).0 (run_sync is (sync_step i s).0) =
        run_sync-Started is (sync_step i s).0 one.prepared in
      record {
        counted = ground (
          arith,
          announcements-append (sync_step i s).1 (run_sync is (sync_step i s).0).1,
          one.counted,
          rest.counted,
        );
        calm = ground (
          arith,
          panics-append (sync_step i s).1 (run_sync is (sync_step i s).0).1,
          one.calm,
          rest.calm,
        );
        prepared = rest.prepared;
      }

  -- Over every run of a new session, whatever its peer sends: the session never comes to its panic, and
  -- it has announced itself to the node server exactly once if it is ready, and not at all otherwise.
  pub run_sync-ready :
      (is : List (SyncInput N W))
      → (announcements (run_sync is new_session).1
          ≡ readiness (run_sync is new_session).0.ready_state)
        × (panics (run_sync is new_session).1 ≡ 0)
  run_sync-ready is =
      let r : Started new_session (run_sync is new_session) =
        run_sync-Started is new_session (λ e. refl) in
      (ground (arith, r.counted), r.calm)
