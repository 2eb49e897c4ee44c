-- ===== src/Cluster/Election/Agreement.antt =====
-- Two nodes that elect among the same connections keep the same one (`elect_sessions` of
-- ractor_cluster/src/node.rs).
use ractor.Prelude.{
  ℕ, ◌<◌, ◌≡◌, refl, sym, ap, ap₂, not, some, List, [], ◌∷◌, map, keep, any, length, arith,
  Option-cases, ◌==◌, Ordering, Bool-cases, inl, inr, ◌∙◌,
}
use ractor.Cluster.Election.{
  SessionElectionCandidate, smaller, least_connection, has_connection, retain_direction,
  prefer_direction, prefer_connection, break_tie, actor_ids, elect_sessions,
}
use ractor.Cluster.Election.Links.{
  Link, first_view, second_view, swapped, surviving, DistinctNonces, directed, both_ways,
  in_direction, least_nonce, with_least_nonce, length-surviving, keep-map, any-map,
}

-- What an end's view of the links shares with the links.
module _ (view : Link → SessionElectionCandidate)
    (nonces : (l : Link) → (view l).connection_id ≡ some l.nonce) where
  least-view : (ls : List Link) → least_connection (map view ls) ≡ least_nonce ls
  unfolding least_connection least_nonce
  least-view [] = refl
  least-view (l ∷ ls) = ap₂ smaller (nonces l) (least-view ls)

  keep_nonce-view :
      (n : ℕ) (ls : List Link)
      → keep (has_connection n) (map view ls) ≡ map view (keep (λ l. l.nonce == n) ls)
  unfolding has_connection
  keep_nonce-view n [] = refl
  keep_nonce-view n (l ∷ ls) = ground (arith, nonces l, keep_nonce-view n ls)

  prefer_connection-view :
      (ls : List Link) → prefer_connection (map view ls) ≡ map view (with_least_nonce ls)
  unfolding prefer_connection with_least_nonce
  prefer_connection-view ls = elim (Option-cases (least_nonce ls)) [
    | inl e ↦ rw (prefer_connection, with_least_nonce, least-view ls, e) refl
    | inr (n, e) ↦ rw (prefer_connection, with_least_nonce, least-view ls, e) (keep_nonce-view n ls)
  ]

keep-twice_not :
    (ls : List Link) → keep (λ l. not (not l.first_accepts)) ls ≡ keep (λ l. l.first_accepts) ls
keep-twice_not [] = refl
keep-twice_not (l ∷ ls) = ground (arith, keep-twice_not ls)

any-twice_not :
    (ls : List Link) → any ls (λ l. not (not l.first_accepts)) ≡ any ls (λ l. l.first_accepts)
any-twice_not [] = refl
any-twice_not (l ∷ ls) = ground (arith, any-twice_not ls)

first_direction :
    (o : Ordering) (ls : List Link)
    → prefer_direction o (map first_view ls) ≡ map first_view (in_direction o ls)
unfolding prefer_direction in_direction both_ways retain_direction directed
first_direction o ls =
    rw (any-map first_view (λ c. c.is_server) ls, any-map first_view (λ c. not c.is_server) ls)
      (elim (Bool-cases (both_ways ls)) [ inl e ↦ rw e (go o) | inr e ↦ rw e refl ])
  where
    go : (o : Ordering) → retain_direction o (map first_view ls) ≡ map first_view (directed o ls)
    go Ordering.lt = keep-map first_view (λ c. not c.is_server) ls
    go Ordering.gt = keep-map first_view (λ c. c.is_server) ls
    go Ordering.eq = refl

second_direction :
    (o : Ordering) (ls : List Link)
    → prefer_direction (swapped o) (map second_view ls) ≡ map second_view (in_direction o ls)
unfolding prefer_direction in_direction both_ways retain_direction directed
second_direction o ls = ground (
  arith,
  any-map second_view (λ c. c.is_server) ls,
  any-map second_view (λ c. not c.is_server) ls,
  any-twice_not ls,
  go o,
)
  where
    go :
        (o : Ordering)
        → retain_direction (swapped o) (map second_view ls) ≡ map second_view (directed o ls)
    go Ordering.lt = keep-map second_view (λ c. c.is_server) ls
    go Ordering.gt =
        keep-map second_view (λ c. not c.is_server) ls ∙ ap (map second_view) (keep-twice_not ls)
    go Ordering.eq = refl

length_one : {A : Type 0} (xs : List A) → length xs ≡ 1 → (x : A) × (xs ≡ x ∷ [])
length_one [] h = absurd (omega arith)
length_one (x ∷ []) h = (x, refl)
length_one (x ∷ y ∷ xs) h = absurd (omega arith)

-- With one link there is nothing to choose.
surviving_one : (o : Ordering) (l : Link) → surviving o (l ∷ []) ≡ l ∷ []
unfolding surviving in_direction both_ways with_least_nonce least_nonce smaller
surviving_one o l = ground arith

break_tie_one : (c : SessionElectionCandidate) → break_tie (c ∷ []) ≡ c ∷ []
unfolding break_tie
break_tie_one c = refl

module _ {N : Type 0} (order : N → N → Ordering) where
  elect_many :
      (this peer : N) (cs : List SessionElectionCandidate)
      → 1 < length cs
      → elect_sessions order this peer cs
        ≡ actor_ids (break_tie (prefer_connection (prefer_direction (order peer this) cs)))
  unfolding elect_sessions
  elect_many this peer cs h = ground arith

  elect_view :
      (view : Link → SessionElectionCandidate)
      → ((l : Link) → (view l).connection_id ≡ some l.nonce)
      → (this peer : N) (o : Ordering) (ls : List Link) (l : Link) → 0 < length ls
      → prefer_direction (order peer this) (map view ls) ≡ map view (in_direction o ls)
      → surviving o ls ≡ l ∷ []
      → elect_sessions order this peer (map view ls) ≡ (view l).actor_id ∷ []
  unfolding elect_sessions actor_ids surviving
  elect_view view nonces this peer o [] l h d e = absurd (omega arith)
  elect_view view nonces this peer o (k ∷ []) l h d e =
      ap (map (λ m. (view m).actor_id)) (sym (surviving_one o k) ∙ e)
  elect_view view nonces this peer o (j ∷ k ∷ ls) l h d e =
      elect_many this peer (map view (j ∷ k ∷ ls)) (omega arith)
      ∙ ap (λ cs. actor_ids (break_tie (prefer_connection cs))) d
      ∙ ap (λ cs. actor_ids (break_tie cs))
          (prefer_connection-view view nonces (in_direction o (j ∷ k ∷ ls)) ∙ ap (map view) e)
      ∙ ap actor_ids (break_tie_one (view l))

  -- Two nodes that see the same connections between them, with distinct nonces, listed alike, keep
  -- the same single connection, whatever direction each was opened in; the comparison of their names
  -- need only be swapped with its arguments.
  pub elect_sessions-agree :
      ((a b : N) → order b a ≡ swapped (order a b))
      → (first second : N) (ls : List Link) → 0 < length ls
      → DistinctNonces ls
      → (l : Link) × (elect_sessions order first second (map first_view ls) ≡ l.first_id ∷ [])
        × (elect_sessions order second first (map second_view ls) ≡ l.second_id ∷ [])
  elect_sessions-agree law first second ls h d =
      let o = order second first in
      let (l, e) = length_one (surviving o ls) (length-surviving o ls h d) in
      (
        l,
        elect_view first_view (λ k. refl) first second o ls l h (first_direction o ls) e,
        elect_view second_view (λ k. refl) second first o ls l h
            (ap (λ r. prefer_direction r (map second_view ls)) (law second first)
              ∙ second_direction o ls)
            e,
      )
