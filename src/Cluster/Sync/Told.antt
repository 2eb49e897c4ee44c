-- ===== src/Cluster/Sync/Told.antt =====
-- What the events of a session (ractor_cluster/src/node/node_session.rs) tell its peer of local actors,
-- and when messages reach only actors that the peer has been told of.
use ractor.Prelude.{
  ℕ, ◌≡◌, refl, ◌∙◌, Bool, true, false, ◌&&◌, List, [], ◌∷◌, ◌++◌, arith, if◌then◌else◌, ℕ_discrete,
}
use ractor.Prelude.Map.{Set, insert, remove, contains_key, lookup-insert, lookup-remove}
use ractor.Cluster.Sync.{
  SyncState, SyncEvent, send_spawn, send_terminate, deliver_cast, deliver_call, advertise,
}

unfoldable pub withdraw : List ℕ → Set ℕ → Set ℕ
withdraw [] m = m
withdraw (pid ∷ pids) m = withdraw pids (remove ℕ_discrete pid m)

-- One set of pids within another.
abbrev pub Below : Set ℕ → Set ℕ → Type 0
Below xs ys = (p : ℕ) → contains_key ℕ_discrete p xs ≡ true → contains_key ℕ_discrete p ys ≡ true

pub insert-Below :
    (pid : ℕ) (xs ys : Set ℕ)
    → Below xs ys
    → Below (insert ℕ_discrete pid tt xs) (insert ℕ_discrete pid tt ys)
insert-Below pid xs ys h p e =
    ground (arith, h p, lookup-insert ℕ_discrete pid p tt xs, lookup-insert ℕ_discrete pid p tt ys)

pub remove-Below :
    (pid : ℕ) (xs ys : Set ℕ)
    → Below xs ys
    → Below (remove ℕ_discrete pid xs) (remove ℕ_discrete pid ys)
remove-Below pid xs ys h p e =
    ground (arith, h p, lookup-remove ℕ_discrete pid p xs, lookup-remove ℕ_discrete pid p ys)

pub shrunk-Below : (pid : ℕ) (xs ys : Set ℕ) → Below xs ys → Below (remove ℕ_discrete pid xs) ys
shrunk-Below pid xs ys h p e = ground (arith, h p, lookup-remove ℕ_discrete pid p xs)

pub advertise-Below :
    (pids : List ℕ) (xs ys : Set ℕ) → Below xs ys → Below (advertise pids xs) (advertise pids ys)
unfolding advertise
advertise-Below [] xs ys h = h
advertise-Below (pid ∷ pids) xs ys h = advertise-Below pids _ _ (insert-Below pid xs ys h)

module _ {N W : Type 0} where
  -- What the peer has been told of, after an event.
  abbrev pub told : SyncEvent N W → Set ℕ → Set ℕ
  told (send_spawn pids) m = advertise pids m
  told (send_terminate pids) m = withdraw pids m
  told _ m = m

  -- A local actor gets a message only if the peer has been told of it.
  abbrev pub heeds : SyncEvent N W → Set ℕ → Bool
  heeds (deliver_cast pid what) m = contains_key ℕ_discrete pid m
  heeds (deliver_call pid tag what) m = contains_key ℕ_discrete pid m
  heeds _ m = true

  unfoldable pub all_heed : List (SyncEvent N W) → Set ℕ → Bool
  all_heed [] m = true
  all_heed (e ∷ es) m = heeds e m && all_heed es (told e m)

  unfoldable pub told_all : List (SyncEvent N W) → Set ℕ → Set ℕ
  told_all [] m = m
  told_all (e ∷ es) m = told_all es (told e m)

  all_heed-append :
      (xs ys : List (SyncEvent N W)) (m : Set ℕ)
      → all_heed (xs ++ ys) m ≡ all_heed xs m && all_heed ys (told_all xs m)
  unfolding all_heed told_all
  all_heed-append [] ys m = refl
  all_heed-append (x ∷ xs) ys m = ground (arith, all_heed-append xs ys (told x m))

  told_all-append :
      (xs ys : List (SyncEvent N W)) (m : Set ℕ)
      → told_all (xs ++ ys) m ≡ told_all ys (told_all xs m)
  unfolding told_all
  told_all-append [] ys m = refl
  told_all-append (x ∷ xs) ys m = told_all-append xs ys (told x m)

  -- Where the peer has been told of `m`, a handler whose result is `r` lets messages reach only actors
  -- that the peer has been told of, and those that it may address stay among them.
  pub record Proper (r : SyncState × List (SyncEvent N W)) (m : Set ℕ) : Type 0 where
    pub heeded : all_heed r.1 m ≡ true
    pub told_of : Below r.0.advertised_local_pids (told_all r.1 m)

  pub silent-Proper :
      (s : SyncState) (m : Set ℕ) → Below s.advertised_local_pids m → Proper (s, []) m
  unfolding all_heed told_all
  silent-Proper s m h = record { heeded = refl; told_of = h }

  -- Where a handler lets no event through that concerns the pids.
  pub quiet-Proper :
      (s : SyncState) (es : List (SyncEvent N W)) (m : Set ℕ)
      → all_heed es m ≡ true
      → told_all es m ≡ m
      → Below s.advertised_local_pids m
      → Proper (s, es) m
  quiet-Proper s es m heeds_all quiet h = record { heeded = heeds_all; told_of = rw quiet h }

  pub guarded-Proper :
      (b : Bool) (r : SyncState × List (SyncEvent N W)) (s : SyncState) (m : Set ℕ)
      → Proper r m
      → Below s.advertised_local_pids m
      → Proper (if b then r else (s, [])) m
  guarded-Proper true r s m p h = p
  guarded-Proper false r s m p h = silent-Proper s m h

  pub then_Proper :
      (one rest : SyncState × List (SyncEvent N W)) (m : Set ℕ)
      → all_heed one.1 m ≡ true
      → Proper rest (told_all one.1 m)
      → Proper (rest.0, one.1 ++ rest.1) m
  then_Proper one rest m h r = record {
    heeded = all_heed-append one.1 rest.1 m ∙ ground (arith, h, r.heeded);
    told_of = rw (told_all-append one.1 rest.1 m) r.told_of;
  }
