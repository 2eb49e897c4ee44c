-- ===== src/Cluster/Net/Reading.antt =====
-- Reading off a stream that works (ractor_cluster/src/net/session.rs).
use ractor.Prelude.{
  ℕ, zero, suc, ◌+◌, ◌-◌, ◌^◌, ◌≤◌, ◌<◌, min, ◌≡◌, refl, ◌⊎◌, sym, ap, ◌∙◌, true, false, some, List,
  [], ◌∷◌, ◌++◌, arith, ltb, length, inl, inr, length-append,
}
use mathlib.Core.List.{append_assoc, append-nil}
use ractor.Prelude.Bytes.{be_bytes}
use ractor.Cluster.Net.{
  ReadHalf, IoResult, ok, failed, unexpected_eof, frame_read_chunk_size, after_read, read_loop,
}

-- A read of some bytes takes no more than that many from the front of those to come, and none only at
-- their end; `read_u64` takes eight of them, and fails where there are fewer.
pub record Reads {S : Type 0} (half : ReadHalf S) : Type 0 where
  pub read_takes :
      (k : ℕ) (s : S)
      → 1 ≤ k
      → (xs : List ℕ) × ((half.read k s).0 ≡ ok xs)
        × (half.remaining s ≡ xs ++ half.remaining (half.read k s).1)
        × (length xs ≤ k)
        × (xs ≡ [] → half.remaining s ≡ [])
  pub u64_takes :
      (n : ℕ) (rest : List ℕ) (s : S)
      → n < 2 ^ 64
      → half.remaining s ≡ be_bytes 8 n ++ rest
      → ((half.read_u64 s).0 ≡ ok n) × (half.remaining (half.read_u64 s).1 ≡ rest)
  pub u64_short :
      (s : S) → length (half.remaining s) < 8 → (half.read_u64 s).0 ≡ failed unexpected_eof

-- Of two ways to cut a list, the longer front goes on where the shorter one ends.
front_split :
    (xs ys zs rest : List ℕ)
    → xs ++ ys ≡ zs ++ rest
    → length zs ≤ length xs
    → (ws : List ℕ) × (xs ≡ zs ++ ws) × (rest ≡ ws ++ ys)
front_split xs ys [] rest e h = (xs, refl, sym e)
front_split [] ys (z ∷ zs) rest e h = absurd (omega arith)
front_split (x ∷ xs) ys (z ∷ zs) rest e h =
    let (ws, front, back) = front_split xs ys zs rest (ground arith) (omega arith) in
    (ws, ground arith, back)

List-cases : (xs : List ℕ) → (xs ≡ []) ⊎ ((z : ℕ) × (zs : List ℕ) × (xs ≡ z ∷ zs))
List-cases [] = inl refl
List-cases (z ∷ zs) = inr (z, zs, refl)

ltb_lt : (a b : ℕ) → a < b → ltb a b ≡ true
ltb_lt a b h = ground arith

ltb_ge : (a b : ℕ) → b ≤ a → ltb a b ≡ false
ltb_ge a b h = ground arith

module _ {S : Type 0} (half : ReadHalf S) (laws : Reads half) where
  read_step :
      (k : ℕ) (x : ℕ) (xs ys : List ℕ) (s : S)
      → half.remaining s ≡ (x ∷ xs) ++ ys
      → 1 ≤ k
      → k ≤ suc (length xs)
      → (z : ℕ) × (zs : List ℕ) × (ws : List ℕ) × (s' : S) × (half.read k s ≡ (ok (z ∷ zs), s'))
        × (x ∷ xs ≡ (z ∷ zs) ++ ws)
        × (half.remaining s' ≡ ws ++ ys)
  read_step k x xs ys s e low high =
      let (taken, took, cut, short, at_end) = laws.read_takes k s low in
      elim (List-cases taken) [
        | inl none_taken ↦ absurd (ground (arith, at_end none_taken))
        | inr (z, zs, some_taken) ↦
            let (ws, front, back) =
              front_split (x ∷ xs) ys (z ∷ zs) (half.remaining (half.read k s).1)
                (rw some_taken at (sym e ∙ cut)) (ground arith) in
            (
              z,
              zs,
              ws,
              (half.read k s).1,
              ap (λ r. (r, (half.read k s).1)) (rw some_taken at took),
              front,
              back,
            )
      ]

  -- What a `read` asks for while bytes are missing.
  chunk : ℕ → List ℕ → ℕ
  chunk len buf = min (len - length buf) frame_read_chunk_size

  chunk_pos : (len : ℕ) (buf : List ℕ) → length buf < len → 1 ≤ chunk len buf
  unfolding chunk
  chunk_pos len buf h = omega arith

  chunk_le : (len : ℕ) (buf : List ℕ) (n : ℕ) → len - length buf ≤ n → chunk len buf ≤ n
  unfolding chunk
  chunk_le len buf n h = omega arith

  read_loop_more :
      (fuel len : ℕ) (buf : List ℕ) (s : S) (z : ℕ) (zs : List ℕ) (s' : S)
      → length buf < len
      → half.read (chunk len buf) s ≡ (ok (z ∷ zs), s')
      → read_loop half (suc fuel) len buf s ≡ read_loop half fuel len (buf ++ (z ∷ zs)) s'
  unfolding read_loop after_read chunk
  read_loop_more fuel len buf s z zs s' h e = rw (ltb_lt (length buf) len h, e)

  read_loop_done :
      (fuel len : ℕ) (buf : List ℕ) (s : S)
      → length buf ≡ len
      → read_loop half fuel len buf s ≡ some (ok buf, s)
  unfolding read_loop
  read_loop_done zero len buf s h = rw (ltb_ge (length buf) len (omega arith))
  read_loop_done (suc fuel) len buf s h = rw (ltb_ge (length buf) len (omega arith))

  -- The loop of `read_n_bytes` where all bytes come.
  pub read_loop-whole :
      (fuel len : ℕ) (buf xs ys : List ℕ) (s : S)
      → half.remaining s ≡ xs ++ ys
      → length buf + length xs ≡ len
      → length xs ≤ fuel
      → (s' : S) × (read_loop half fuel len buf s ≡ some (ok (buf ++ xs), s'))
        × (half.remaining s' ≡ ys)
  read_loop-whole fuel len buf [] ys s e h f = (
    s,
    read_loop_done fuel len buf s (omega arith) ∙ ap (λ b. some (ok b, s)) (sym (append-nil buf)),
    e,
  )
  read_loop-whole zero len buf (x ∷ xs) ys s e h f = absurd (omega arith)
  read_loop-whole (suc fuel) len buf (x ∷ xs) ys s e h f =
      let (z, zs, ws, s₁, took, cut, left) =
        read_step (chunk len buf) x xs ys s e (chunk_pos len buf (omega arith))
          (chunk_le len buf (suc (length xs)) (omega arith)) in
      let lens : suc (length xs) ≡ suc (length zs) + length ws =
        ap length cut ∙ length-append (z ∷ zs) ws in
      let (s₂, done, rest) =
        read_loop-whole fuel len (buf ++ (z ∷ zs)) ws ys s₁ left
          (omega (arith, lens, length-append buf (z ∷ zs))) (omega (arith, lens)) in
      (
        s₂,
        read_loop_more fuel len buf s z zs s₁ (omega arith) took
            ∙ done
            ∙ ap (λ bs. some (ok bs, s₂))
                (append_assoc buf (z ∷ zs) ws ∙ ap (λ bs. buf ++ bs) (sym cut)),
        rest,
      )

  read_loop_eof :
      (fuel len : ℕ) (buf : List ℕ) (s s' : S)
      → length buf < len
      → half.read (chunk len buf) s ≡ (ok [], s')
      → read_loop half (suc fuel) len buf s ≡ some (failed unexpected_eof, s')
  unfolding read_loop after_read chunk
  read_loop_eof fuel len buf s s' h e = rw (ltb_lt (length buf) len h, e)

  -- The loop of `read_n_bytes` where the stream ends before.
  pub read_loop-short :
      (fuel len : ℕ) (buf xs : List ℕ) (s : S)
      → half.remaining s ≡ xs
      → length buf + length xs < len
      → length xs < fuel
      → (s' : S) × (read_loop half fuel len buf s ≡ some (failed unexpected_eof, s'))
  read_loop-short zero len buf xs s e h f = absurd (omega arith)
  read_loop-short (suc fuel) len buf xs s e h f =
      let (taken, took, cut, short, at_end) =
        laws.read_takes (chunk len buf) s (chunk_pos len buf (omega arith)) in
      let s₁ = (half.read (chunk len buf) s).1 in
      let pair = ap {B = IoResult (List ℕ) × S} (λ r. (r, s₁)) took in
      elim (List-cases taken) [
        | inl none_taken ↦
            (s₁, read_loop_eof fuel len buf s s₁ (omega arith) (rw none_taken at pair))
        | inr (z, zs, some_taken) ↦
            let lens : length xs ≡ suc (length zs) + length (half.remaining s₁) =
              ap length (sym e ∙ cut ∙ ap (λ ts. ts ++ half.remaining s₁) some_taken)
              ∙ length-append (z ∷ zs) (half.remaining s₁) in
            let (s₂, done) =
              read_loop-short fuel len (buf ++ (z ∷ zs)) (half.remaining s₁) s₁ refl
                (omega (arith, lens, length-append buf (z ∷ zs))) (omega (arith, lens)) in
            (s₂, read_loop_more fuel len buf s z zs s₁ (omega arith) (rw some_taken at pair) ∙ done)
      ]
