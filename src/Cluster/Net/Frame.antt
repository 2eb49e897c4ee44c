-- ===== src/Cluster/Net/Frame.antt =====
-- A frame that comes on a stream (ractor_cluster/src/net/session.rs): what `read_network_message` and the
-- reader make of it.
use mathlib.Core.Option
use mathlib.Core.List.{append_assoc}
use ractor.Prelude.{
  ℕ, ◌^◌, ◌≤◌, ◌<◌, ◌≡◌, sym, ap, ◌∙◌, Option, none, some, List, [], ◌∷◌, ◌++◌, arith, ltb, length,
  take, drop, append-take-drop, if◌then◌else◌, inl, inr, Bool-cases, Option-cases, length-take,
}
use ractor.Prelude.Bytes.{be_bytes}
use ractor.Cluster.Net.{
  Codec, ReadHalf, IoResult, ok, failed, unexpected_eof, invalid_data, read_n_bytes,
  checked_frame_length, max_vec_len, decoded, decode_frame, decode_read, read_payload,
  read_after_length, read_network_message, stop_reason, reader_next, handle_wait, channel_closed,
  frame_read_error, ReaderEvent, wait_for_object, object_available, stop_reader,
}
use ractor.Cluster.Net.Reading.{Reads, read_loop-whole, read_loop-short}

-- What the codec promises.
pub record Decodes {M : Type 0} (codec : Codec M) : Type 0 where
  pub encoded_len_lem : (m : M) → codec.encoded_len m ≡ length (codec.encode m)
  pub decode-encode : (m : M) → codec.decode (codec.encode m) ≡ some m

checked_within :
    (n max_frame_size : ℕ)
    → n ≤ max_frame_size
    → max_frame_size ≤ max_vec_len
    → checked_frame_length n max_frame_size ≡ ok n
unfolding checked_frame_length
checked_within n max_frame_size h k = ground arith

checked_over :
    (n max_frame_size : ℕ)
    → max_frame_size < n
    → checked_frame_length n max_frame_size ≡ failed invalid_data
unfolding checked_frame_length
checked_over n max_frame_size h = ground arith

pub decode_frame-encode :
    {M : Type 0} {codec : Codec M} (decodes : Decodes codec) (m : M)
    → decode_frame codec (codec.encode m) ≡ ok m
unfolding decode_frame decoded
decode_frame-encode decodes m = ap decoded (decodes.decode-encode m)

module _ {M S : Type 0} (codec : Codec M) (half : ReadHalf S) (laws : Reads half)
    (max_frame_size : ℕ) where
  read_within :
      (n : ℕ) (s : S) (read : IoResult (List ℕ) × S)
      → (half.read_u64 s).0 ≡ ok n
      → checked_frame_length n max_frame_size ≡ ok n
      → read_n_bytes half n (half.read_u64 s).1 ≡ some read
      → read_network_message codec half max_frame_size s ≡ some (decode_read codec read)
  unfolding read_network_message read_after_length read_payload
  read_within n s read is_ok checked done =
      ap (λ len. read_after_length codec half max_frame_size (len, (half.read_u64 s).1)) is_ok
      ∙ ap (λ len. read_payload codec half max_frame_size len (half.read_u64 s).1) checked
      ∙ ap (Option.map (decode_read codec)) done

  -- After the length of a frame within the limits, and its payload.
  pub read_whole :
      (payload rest : List ℕ) (s : S)
      → length payload ≤ max_frame_size
      → max_frame_size ≤ max_vec_len
      → half.remaining s ≡ be_bytes 8 (length payload) ++ payload ++ rest
      → (s' : S) × (read_network_message codec half max_frame_size s
          ≡ some (decode_frame codec payload, s'))
        × (half.remaining s' ≡ rest)
  unfolding read_n_bytes decode_read
  read_whole payload rest s h k e =
      let (is_ok, left) =
        laws.u64_takes (length payload) (payload ++ rest) s (omega arith)
          (e ∙ append_assoc (be_bytes 8 (length payload)) payload rest) in
      let (s', done, left') =
        read_loop-whole half laws (length payload) (length payload) [] payload rest
          (half.read_u64 s).1 left (omega arith) (omega arith) in
      (
        s',
        read_within (length payload) s (ok payload, s') is_ok
            (checked_within (length payload) max_frame_size h k) done,
        left',
      )

  pub read_short :
      (n : ℕ) (rest : List ℕ) (s : S)
      → n ≤ max_frame_size
      → length rest < n
      → max_frame_size ≤ max_vec_len
      → half.remaining s ≡ be_bytes 8 n ++ rest
      → (s' : S) × (read_network_message codec half max_frame_size s
          ≡ some (failed unexpected_eof, s'))
  unfolding read_n_bytes decode_read
  read_short n rest s h short k e =
      let (is_ok, left) = laws.u64_takes n rest s (omega arith) e in
      let (s', done) =
        read_loop-short half laws n n [] rest (half.read_u64 s).1 left (omega arith)
          (omega arith) in
      (
        s',
        read_within n s (failed unexpected_eof, s') is_ok (checked_within n max_frame_size h k)
            done,
      )

  pub read_over :
      (n : ℕ) (rest : List ℕ) (s : S)
      → max_frame_size < n
      → n < 2 ^ 64
      → half.remaining s ≡ be_bytes 8 n ++ rest
      → read_network_message codec half max_frame_size s
        ≡ some (failed invalid_data, (half.read_u64 s).1)
  unfolding read_network_message read_after_length read_payload
  read_over n rest s h k e =
      let (is_ok, left) = laws.u64_takes n rest s k e in rw (is_ok, checked_over n max_frame_size h)

  pub read_ended :
      (s : S)
      → length (half.remaining s) < 8
      → read_network_message codec half max_frame_size s
        ≡ some (failed unexpected_eof, (half.read_u64 s).1)
  unfolding read_network_message read_after_length
  read_ended s h =
      ap (λ len. read_after_length codec half max_frame_size (len, (half.read_u64 s).1))
        (laws.u64_short s h)

abbrev pub frame_events : {M : Type 0} → Option M → List (ReaderEvent M)
frame_events (some m) = object_available m ∷ wait_for_object ∷ []
frame_events none = stop_reader frame_read_error ∷ []

-- What the reader does about a frame whose length `n` has come, whatever follows: over the limit, it
-- stops with an error before it asks for the payload; where the stream ends within the payload, it
-- stops as for a closed stream; a payload that does not decode is an error; and otherwise the
-- message goes to the session, and the reader waits for the next.
pub handle_wait_lem :
    {M S : Type 0} (codec : Codec M) (half : ReadHalf S) (laws : Reads half) (max_frame_size n : ℕ)
    (rest : List ℕ) (s : S)
    → n < 2 ^ 64
    → max_frame_size ≤ max_vec_len
    → half.remaining s ≡ be_bytes 8 n ++ rest
    → (s' : Option S) × (handle_wait codec half max_frame_size (some s)
        ≡ some (
          s',
          if ltb max_frame_size n
              then stop_reader frame_read_error ∷ []
              else if ltb (length rest) n
              then stop_reader channel_closed ∷ []
              else frame_events (codec.decode (take n rest)),
        ))
unfolding handle_wait reader_next stop_reason decode_frame decoded
handle_wait_lem codec half laws max_frame_size n rest s w k e =
    elim (Bool-cases (ltb max_frame_size n)) [
      | inl over ↦ (
        none,
        ap (Option.map reader_next)
              (read_over codec half laws max_frame_size n rest s (ground arith) w e)
            ∙ rw over,
      )
      | inr within ↦ elim (Bool-cases (ltb (length rest) n)) [
        | inl short ↦
            let (s', done) =
              read_short codec half laws max_frame_size n rest s (ground arith) (ground arith) k
                e in
            (none, ap (Option.map reader_next) done ∙ rw (within, short))
        | inr whole ↦
            let fits : length (take n rest) ≡ n = length-take n rest (ground arith) in
            let (s', done, left) =
              read_whole codec half laws max_frame_size (take n rest) (drop n rest) s
                (ground (arith, fits)) k
                (e
                  ∙ ap (λ bytes. be_bytes 8 n ++ bytes) (sym (append-take-drop n rest))
                  ∙ sym (append_assoc (be_bytes 8 n) (take n rest) (drop n rest))
                  ∙ ap (λ len. be_bytes 8 len ++ take n rest ++ drop n rest) (sym fits)) in
            elim (Option-cases (codec.decode (take n rest))) [
              | inl bad ↦ (none, ap (Option.map reader_next) done ∙ rw (within, whole, bad))
              | inr (m, good) ↦
                  (some s', ap (Option.map reader_next) done ∙ rw (within, whole, good))
            ]
      ]
    ]
