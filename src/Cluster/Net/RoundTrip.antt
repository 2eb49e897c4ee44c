-- ===== src/Cluster/Net/RoundTrip.antt =====
-- From the writer task of one end to the reader of the other (ractor_cluster/src/net/session.rs).
use mathlib.Core.List.{append_assoc, append-nil}
use ractor.Prelude.{
  ℕ, zero, suc, ◌≤◌, ◌<◌, ◌≡◌, refl, sym, ap, ◌∙◌, true, some, List, [], ◌∷◌, ◌++◌, arith, length,
  take, drop, All, append-take-drop, length-drop-le,
}
use ractor.Prelude.Bytes.{be_bytes}
use ractor.Cluster.Net.{
  Codec, ReadHalf, WriteHalf, ok, failed, ErrorKind, unexpected_eof, max_vec_len,
  encode_network_message, encode_batch, read_network_message, stop_reason, reader_next, handle_wait,
  after_wait, run_reader, StopReason, channel_closed, all_written, write_batch, run_write_task,
}
use ractor.Cluster.Net.Frame.{Decodes, read_whole, read_ended, decode_frame-encode}
use ractor.Cluster.Net.Reading.{Reads}

-- What a stream that takes everything promises.
pub record Writes {S : Type 0} (half : WriteHalf S) : Type 0 where
  pub write_all_ok : (bytes : List ℕ) (s : S) → (half.write_all bytes s).0 ≡ true
  pub written-write_all :
      (bytes : List ℕ) (s : S) → half.written (half.write_all bytes s).1 ≡ half.written s ++ bytes
  pub flush_ok : (s : S) → (half.flush s).0 ≡ true
  pub written-flush : (s : S) → half.written (half.flush s).1 ≡ half.written s

module _ {M : Type 0} (codec : Codec M) where
  -- The frames of messages, one after the other.
  unfoldable pub frames : List M → List ℕ
  frames [] = []
  frames (m ∷ ms) = be_bytes 8 (codec.encoded_len m) ++ codec.encode m ++ frames ms

  encode_batch-frames : (ms : List M) (buf : List ℕ) → encode_batch codec ms buf ≡ buf ++ frames ms
  unfolding encode_batch encode_network_message frames
  encode_batch-frames [] buf = sym (append-nil buf)
  encode_batch-frames (m ∷ ms) buf = encode_batch-frames ms _ ∙ simp append_assoc

  frames-append : (ms ns : List M) → frames (ms ++ ns) ≡ frames ms ++ frames ns
  unfolding frames
  frames-append [] ns = refl
  frames-append (m ∷ ms) ns = simp (frames-append ms ns, append_assoc)

module _ {M S : Type 0} (codec : Codec M) (half : ReadHalf S) (laws : Reads half)
    (max_frame_size : ℕ) where
  run_reader_on :
      (fuel : ℕ) (s s' : S) (m : M) (ms : List M) (reason : StopReason)
      → read_network_message codec half max_frame_size s ≡ some (ok m, s')
      → run_reader codec half max_frame_size fuel (some s') ≡ some (ms, reason)
      → run_reader codec half max_frame_size (suc fuel) (some s) ≡ some (m ∷ ms, reason)
  unfolding run_reader after_wait handle_wait reader_next
  run_reader_on fuel s s' m ms reason e rest = rw (e, rest)

  run_reader_stop :
      (fuel : ℕ) (s s' : S) (kind : ErrorKind)
      → read_network_message codec half max_frame_size s ≡ some (failed kind, s')
      → run_reader codec half max_frame_size (suc fuel) (some s) ≡ some ([], stop_reason kind)
  unfolding run_reader after_wait handle_wait reader_next
  run_reader_stop fuel s s' kind e = rw e

  -- The reader hands on the messages of the frames that come, in order, and stops where they end.
  run_reader-frames :
      (decodes : Decodes codec) (ms : List M) (fuel : ℕ) (s : S)
      → length ms < fuel
      → max_frame_size ≤ max_vec_len
      → All (λ m. codec.encoded_len m ≤ max_frame_size) ms
      → half.remaining s ≡ frames codec ms
      → run_reader codec half max_frame_size fuel (some s) ≡ some (ms, channel_closed)
  unfolding frames stop_reason
  run_reader-frames decodes [] (suc fuel) s f k h e =
      run_reader_stop fuel s (half.read_u64 s).1 unexpected_eof
        (read_ended codec half laws max_frame_size s (rw e (omega arith)))
  run_reader-frames decodes (m ∷ ms) (suc fuel) s f k h e =
      let lens = decodes.encoded_len_lem m in
      let (s', done, left) =
        read_whole codec half laws max_frame_size (codec.encode m) (frames codec ms) s
          (omega (arith, lens, h.0)) k (rw lens at e) in
      run_reader_on fuel s s' m ms channel_closed
        (done ∙ ap (λ r. some (r, s')) (decode_frame-encode decodes m))
        (run_reader-frames decodes ms fuel s' (omega arith) k h.1 left)
  run_reader-frames decodes ms zero s f k h e = absurd (omega arith)

module _ {M S : Type 0} (codec : Codec M) (half : WriteHalf S) (laws : Writes half) where
  written-write_batch :
      (ms : List M) (s : S)
      → ((write_batch codec half ms s).0 ≡ true)
        × (half.written (write_batch codec half ms s).1 ≡ half.written s ++ frames codec ms)
  unfolding write_batch
  written-write_batch ms s = ground (
    arith,
    laws.write_all_ok (encode_batch codec ms []) s,
    laws.written-write_all (encode_batch codec ms []) s,
    laws.flush_ok (half.write_all (encode_batch codec ms []) s).1,
    laws.written-flush (half.write_all (encode_batch codec ms []) s).1,
    encode_batch-frames codec ms [],
  )

  -- However the messages wait, the writer task puts out their frames.
  run_write_task-frames :
      (turns : List ℕ) (ms : List M) (s : S)
      → length ms ≤ length turns
      → ((run_write_task codec half turns ms s).0 ≡ all_written)
        × ((run_write_task codec half turns ms s).1 ≡ [])
        × (half.written (run_write_task codec half turns ms s).2
            ≡ half.written s ++ frames codec ms)
  unfolding run_write_task frames
  run_write_task-frames [] [] s h = (refl, refl, sym (append-nil (half.written s)))
  run_write_task-frames [] (m ∷ ms) s h = absurd (omega arith)
  run_write_task-frames (w ∷ turns) [] s h = (refl, refl, sym (append-nil (half.written s)))
  run_write_task-frames (w ∷ turns) (m ∷ ms) s h =
      let (success, out) = written-write_batch (m ∷ take w ms) s in
      let after = (write_batch codec half (m ∷ take w ms) s).1 in
      let (ends, all_taken, out_rest) =
        run_write_task-frames turns (drop w ms) after (omega (arith, length-drop-le w ms)) in
      rw success (
        ends,
        all_taken,
        out_rest
            ∙ ap (λ bytes. bytes ++ frames codec (drop w ms)) out
            ∙ append_assoc (half.written s) (frames codec (m ∷ take w ms))
                (frames codec (drop w ms))
            ∙ ap (λ bytes. half.written s ++ bytes)
                (sym (frames-append codec (m ∷ take w ms) (drop w ms))
                  ∙ ap (λ ns. frames codec (m ∷ ns)) (append-take-drop w ms)),
      )

-- A writer task that has had a turn for each message, whatever waits at each, on a stream that takes
-- all, and a reader whose stream gives the bytes in pieces of any size: where each message is within
-- the limit, the reader hands on the very messages, in order, and stops when the stream closes.
pub run_reader-run_write_task :
    {M R W : Type 0} (codec : Codec M) (decodes : Decodes codec) (writer : WriteHalf W)
    (writes : Writes writer) (reader : ReadHalf R) (reads : Reads reader) (max_frame_size : ℕ)
    (turns : List ℕ) (ms : List M) (w : W) (r : R)
    → max_frame_size ≤ max_vec_len
    → length ms ≤ length turns
    → All (λ m. codec.encoded_len m ≤ max_frame_size) ms
    → writer.written w ≡ []
    → reader.remaining r ≡ writer.written (run_write_task codec writer turns ms w).2
    → run_reader codec reader max_frame_size (suc (length ms)) (some r) ≡ some (ms, channel_closed)
run_reader-run_write_task codec decodes writer writes reader reads max_frame_size turns ms w r k h
      fits new stream =
    run_reader-frames codec reader reads max_frame_size decodes ms (suc (length ms)) r (omega arith)
      k fits
      (stream
        ∙ (run_write_task-frames codec writer writes turns ms w h).2
        ∙ ap (λ bytes. bytes ++ frames codec ms) new)
