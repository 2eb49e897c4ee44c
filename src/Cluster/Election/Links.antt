-- ===== src/Cluster/Election/Links.antt =====
-- The connections between two nodes (ractor_cluster/src/node.rs), described once for both ends, and
-- the one of them that survives an election.
use ractor.Prelude.{
  ℕ, suc, ◌≤◌, ◌<◌, ◌≡◌, ◌≢◌, refl, ap, Bool, true, not, ◌&&◌, Option, none, some, List, [], ◌∷◌,
  map, keep, any, length, arith, subst, Option-cases, ◌==◌, if◌then◌else◌, Ordering, All,
  Bool-cases, inl, inr,
}
use ractor.Cluster.Election.{SessionElectionCandidate, smaller}

-- A connection between two nodes: its session at each, which end accepted it, and its nonce.
pub record Link : Type 0 where
  pub first_id : ℕ
  pub second_id : ℕ
  pub first_accepts : Bool
  pub nonce : ℕ

abbrev pub first_view : Link → SessionElectionCandidate
first_view l = record {
  actor_id = l.first_id;
  is_server = l.first_accepts;
  connection_id = some l.nonce;
}

abbrev pub second_view : Link → SessionElectionCandidate
second_view l = record {
  actor_id = l.second_id;
  is_server = not l.first_accepts;
  connection_id = some l.nonce;
}

-- What the two ends see of one comparison of their names.
abbrev pub swapped : Ordering → Ordering
swapped Ordering.lt = Ordering.gt
swapped Ordering.gt = Ordering.lt
swapped Ordering.eq = Ordering.eq

module _ {A B : Type 0} (f : A → B) (p : B → Bool) where
  pub keep-map : (xs : List A) → keep p (map f xs) ≡ map f (keep (λ x. p (f x)) xs)
  keep-map [] = refl
  keep-map (x ∷ xs) = ground (arith, keep-map xs)

  pub any-map : (xs : List A) → any (map f xs) p ≡ any xs (λ x. p (f x))
  any-map [] = refl
  any-map (x ∷ xs) = ground (arith, any-map xs)

pub length-map : {A B : Type 0} (f : A → B) (xs : List A) → length (map f xs) ≡ length xs
length-map f [] = refl
length-map f (x ∷ xs) = ap suc (length-map f xs)

-- The links that stay, described once for both ends: those in the direction that the order of the
-- names prefers, where both directions stand, and of these the one with the least nonce.
unfoldable pub directed : Ordering → List Link → List Link
directed Ordering.lt ls = keep (λ l. not l.first_accepts) ls
directed Ordering.gt ls = keep (λ l. l.first_accepts) ls
directed Ordering.eq ls = ls

unfoldable pub both_ways : List Link → Bool
both_ways ls = any ls (λ l. l.first_accepts) && any ls (λ l. not l.first_accepts)

unfoldable pub in_direction : Ordering → List Link → List Link
unfolding directed both_ways
in_direction second_to_first ls = if both_ways ls then directed second_to_first ls else ls

unfoldable pub least_nonce : List Link → Option ℕ
least_nonce [] = none
least_nonce (l ∷ ls) = smaller (some l.nonce) (least_nonce ls)

unfoldable pub with_least_nonce : List Link → List Link
with_least_nonce ls = elim (least_nonce ls) [ none ↦ ls | some n ↦ keep (λ l. l.nonce == n) ls ]

unfoldable pub surviving : Ordering → List Link → List Link
unfolding in_direction with_least_nonce
surviving second_to_first ls = with_least_nonce (in_direction second_to_first ls)

abbrev pub DistinctNonces : List Link → Type 0
DistinctNonces [] = Unit
DistinctNonces (l ∷ ls) = All (λ k. k.nonce ≢ l.nonce) ls × DistinctNonces ls

keep-All : (P : Link → Type 0) (p : Link → Bool) (ls : List Link) → All P ls → All P (keep p ls)
keep-All P p [] h = tt
keep-All P p (l ∷ ls) h = elim (Bool-cases (p l)) [
  | inl e ↦ rw e (h.0, keep-All P p ls h.1)
  | inr e ↦ rw e (keep-All P p ls h.1)
]

keep-DistinctNonces :
    (p : Link → Bool) (ls : List Link) → DistinctNonces ls → DistinctNonces (keep p ls)
keep-DistinctNonces p [] h = tt
keep-DistinctNonces p (l ∷ ls) h = elim (Bool-cases (p l)) [
  | inl e ↦ rw e (keep-All (λ k. k.nonce ≢ l.nonce) p ls h.0, keep-DistinctNonces p ls h.1)
  | inr e ↦ rw e (keep-DistinctNonces p ls h.1)
]

none_equal : (n : ℕ) (ls : List Link) → All (λ k. k.nonce ≢ n) ls → keep (λ l. l.nonce == n) ls ≡ []
none_equal n [] h = refl
none_equal n (l ∷ ls) h = ground (arith, none_equal n ls h.1)

nonce_eq : {n m : ℕ} → n == m ≡ true → n ≡ m
nonce_eq e = ground arith

keep_nonce-le-one :
    (n : ℕ) (ls : List Link) → DistinctNonces ls → length (keep (λ l. l.nonce == n) ls) ≤ 1
keep_nonce-le-one n [] h = omega arith
keep_nonce-le-one n (l ∷ ls) h = elim (Bool-cases (l.nonce == n)) [
  | inl e ↦
      ground (arith, none_equal n ls (subst (λ m. All (λ k. k.nonce ≢ m) ls) (nonce_eq e) h.0))
  | inr e ↦ ground (arith, keep_nonce-le-one n ls h.1)
]

any-keep : (p : Link → Bool) (ls : List Link) → any ls p ≡ true → 0 < length (keep p ls)
any-keep p [] h = cc
any-keep p (l ∷ ls) h = ground (arith, any-keep p ls)

pub in_direction_pos :
    (o : Ordering) (ls : List Link) → 0 < length ls → 0 < length (in_direction o ls)
unfolding in_direction both_ways directed
in_direction_pos Ordering.lt ls h = ground (arith, any-keep (λ l. not l.first_accepts) ls)
in_direction_pos Ordering.gt ls h = ground (arith, any-keep (λ l. l.first_accepts) ls)
in_direction_pos Ordering.eq ls h = ground arith

in_direction-DistinctNonces :
    (o : Ordering) (ls : List Link) → DistinctNonces ls → DistinctNonces (in_direction o ls)
unfolding in_direction directed
in_direction-DistinctNonces o ls h = elim (Bool-cases (both_ways ls)) [
  | inl e ↦ rw e (go o)
  | inr e ↦ rw e h
]
  where
    go : (o : Ordering) → DistinctNonces (directed o ls)
    go Ordering.lt = keep-DistinctNonces (λ l. not l.first_accepts) ls h
    go Ordering.gt = keep-DistinctNonces (λ l. l.first_accepts) ls h
    go Ordering.eq = h

least_nonce_pos :
    (n : ℕ) (ls : List Link) → least_nonce ls ≡ some n → 0 < length (keep (λ l. l.nonce == n) ls)
unfolding least_nonce smaller
least_nonce_pos n [] h = cc
least_nonce_pos n (l ∷ ls) h = elim (Option-cases (least_nonce ls)) [
  | inl e ↦ ground (arith, e)
  | inr (m, e) ↦ ground (arith, e, least_nonce_pos m ls e, least_nonce_pos n ls)
]

least_nonce-none : (ls : List Link) → least_nonce ls ≡ none → length ls ≡ 0
unfolding least_nonce smaller
least_nonce-none [] h = refl
least_nonce-none (l ∷ ls) h = elim (Option-cases (least_nonce ls)) [
  | inl e ↦ ground (arith, e)
  | inr (m, e) ↦ ground (arith, e)
]

length-with_least_nonce :
    (ls : List Link) → 0 < length ls → DistinctNonces ls → length (with_least_nonce ls) ≡ 1
unfolding with_least_nonce
length-with_least_nonce ls h d = elim (Option-cases (least_nonce ls)) [
  | inl e ↦ absurd (omega (arith, least_nonce-none ls e))
  | inr (n, e) ↦
      rw (e, with_least_nonce, length)
        (omega (arith, least_nonce_pos n ls e, keep_nonce-le-one n ls d))
]

-- Exactly one link survives.
pub length-surviving :
    (o : Ordering) (ls : List Link)
    → 0 < length ls
    → DistinctNonces ls
    → length (surviving o ls) ≡ 1
unfolding surviving
length-surviving o ls h d =
    length-with_least_nonce (in_direction o ls) (in_direction_pos o ls h)
      (in_direction-DistinctNonces o ls d)
