-- ===== src/Tests/Frames.antt =====
-- Frames between two ends of a stream.
use ractor.Prelude.{
  ℕ, zero, suc, ◌+◌, ◌≤◌, ◌<◌, length-append, ◌^◌, min, ◌≡◌, refl, true, some, List, [], ◌∷◌, ◌++◌,
  if◌then◌else◌, ltb, arith, length, take, drop, append-take-drop, Option,
}
use ractor.Prelude.Bytes.{be_bytes, be_value, be_value-be_bytes, length-be_bytes}
use ractor.Cluster.Net.{
  Codec, ReadHalf, WriteHalf, ok, failed, unexpected_eof, run_write_task, run_reader, handle_wait,
  channel_closed, frame_read_error, stop_reader,
}
use ractor.Cluster.Net.Reading.{Reads}
use ractor.Cluster.Net.Frame.{Decodes, handle_wait_lem, frame_events}
use ractor.Cluster.Net.RoundTrip.{Writes, run_reader-run_write_task}
use ractor.Prelude.{take-append_length, drop-append_length, sym, ap, ◌∙◌}

-- A message is its bytes.
abbrev plain : Codec (List ℕ)
plain = record { encoded_len = length; encode = λ m. m; decode = some }

plain-Decodes : Decodes plain
plain-Decodes = record { encoded_len_lem = λ m. refl; decode-encode = λ m. refl }

-- A stream that takes all, and one that gives at most three bytes at a time.
abbrev sink : WriteHalf (List ℕ)
sink = record {
  written = λ s. s;
  write_all = λ bytes s. (true, s ++ bytes);
  flush = λ s. (true, s);
}

sink-Writes : Writes sink
sink-Writes = record {
  write_all_ok = λ bytes s. refl;
  written-write_all = λ bytes s. refl;
  flush_ok = λ s. refl;
  written-flush = λ s. refl;
}

abbrev drip : ReadHalf (List ℕ)
drip = record {
  remaining = λ s. s;
  read = λ k s. (ok (take (min k 3) s), drop (min k 3) s);
  read_u64 = λ s.
      if ltb (length s) 8
      then (failed unexpected_eof, [])
      else (ok (be_value 0 (take 8 s)), drop 8 s);
}

length-take_bound : (n : ℕ) (s : List ℕ) → length (take n s) ≤ n
length-take_bound zero s = omega arith
length-take_bound (suc n) [] = omega arith
length-take_bound (suc n) (x ∷ s) = omega (arith, length-take_bound n s)

take_nothing : (n : ℕ) (s : List ℕ) → 1 ≤ n → take n s ≡ [] → s ≡ []
take_nothing zero s h e = absurd (omega arith)
take_nothing (suc n) [] h e = refl
take_nothing (suc n) (x ∷ s) h e = absurd (ground arith)

drip_u64 :
    (n : ℕ) (rest s : List ℕ)
    → n < 2 ^ 64
    → s ≡ be_bytes 8 n ++ rest
    → ((drip.read_u64 s).0 ≡ ok n) × ((drip.read_u64 s).1 ≡ rest)
drip_u64 n rest s h e =
    let front : take 8 s ≡ be_bytes 8 n =
      ap (take 8) e ∙ take-append_length 8 (be_bytes 8 n) rest (length-be_bytes 8 n) in
    let back : drop 8 s ≡ rest =
      ap (drop 8) e ∙ drop-append_length 8 (be_bytes 8 n) rest (length-be_bytes 8 n) in
    let whole : length s ≡ 8 + length rest =
      ap length e
      ∙ length-append (be_bytes 8 n) rest
      ∙ ap (λ k. k + length rest) (length-be_bytes 8 n) in
    (ground (arith, whole, front, be_value-be_bytes 8 n (omega arith)), ground (arith, whole, back))

drip-Reads : Reads drip
drip-Reads = record {
  read_takes = λ k s h. (
    take (min k 3) s,
    refl,
    sym (append-take-drop (min k 3) s),
    omega (arith, length-take_bound (min k 3) s),
    take_nothing (min k 3) s (omega arith),
  );
  u64_takes = λ n rest s h e. drip_u64 n rest s h e;
  u64_short = λ s h. ground arith;
}

abbrev messages : List (List ℕ)
messages = (1 ∷ 2 ∷ 3 ∷ 4 ∷ 5 ∷ []) ∷ [] ∷ (9 ∷ []) ∷ []

run_reader-run_write_task_example :
    run_reader plain drip 100 4 (some (run_write_task plain sink (0 ∷ 5 ∷ 0 ∷ []) messages []).2)
    ≡ some (messages, channel_closed)
run_reader-run_write_task_example =
    run_reader-run_write_task plain plain-Decodes sink sink-Writes drip drip-Reads 100
      (0 ∷ 5 ∷ 0 ∷ []) messages [] (run_write_task plain sink (0 ∷ 5 ∷ 0 ∷ []) messages []).2
      (omega arith) (omega arith) (omega arith, (omega arith, (omega arith, tt))) refl refl

handle_wait_lem_example :
    (s' : Option (List ℕ)) × (handle_wait plain drip 100 (some (be_bytes 8 101 ++ (7 ∷ [])))
      ≡ some (
        s',
        if ltb 100 101
            then stop_reader frame_read_error ∷ []
            else if ltb 1 101
            then stop_reader channel_closed ∷ []
            else frame_events (plain.decode (take 101 (7 ∷ []))),
      ))
handle_wait_lem_example =
    handle_wait_lem plain drip drip-Reads 100 101 (7 ∷ []) (be_bytes 8 101 ++ (7 ∷ []))
      (omega arith) (omega arith) refl
