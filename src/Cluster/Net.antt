-- ===== src/Cluster/Net.antt =====
-- The frames of a connection (ractor_cluster/src/net/session.rs): what the writer task puts on the
-- stream, what the reader actor takes off it, and the session actor between them and the node session.
-- The halves of a stream and the protobuf codec are parameters; a type `S` holds the state of a half.
-- There is memory for a frame within the limits.
pub mod Reading
pub mod Frame
pub mod RoundTrip
use mathlib.Core.Option
use ractor.Prelude.{
  ℕ, zero, suc, ◌-◌, ◌*◌, ◌^◌, min, Bool, true, false, Option, none, some, List, [], ◌∷◌, ◌++◌, map,
  if◌then◌else◌, ltb, length, take, drop,
}
use ractor.Prelude.Bytes.{be_bytes}

pub data ErrorKind : Type 0 where
  unexpected_eof invalid_data other_error : ErrorKind

pub data IoResult (A : Type 0) : Type 0 where
  ok : A → IoResult A
  failed : ErrorKind → IoResult A

-- `ActorReadHalf`: the bytes to come, a read of at most so many of them, and `read_u64`.
pub record ReadHalf (S : Type 0) : Type 0 where
  pub remaining : S → List ℕ
  pub read : ℕ → S → IoResult (List ℕ) × S
  pub read_u64 : S → IoResult ℕ × S

-- `ActorWriteHalf`: the bytes that went out, and whether a write and a flush succeed.
pub record WriteHalf (S : Type 0) : Type 0 where
  pub written : S → List ℕ
  pub write_all : List ℕ → S → Bool × S
  pub flush : S → Bool × S

-- The protobuf messages of a connection.
pub record Codec (M : Type 0) : Type 0 where
  pub encoded_len : M → ℕ
  pub encode : M → List ℕ
  pub decode : List ℕ → Option M

abbrev pub frame_read_chunk_size : ℕ
frame_read_chunk_size = 8 * 1024

abbrev pub max_vec_len : ℕ
max_vec_len = 2 ^ 63 - 1

pub data StopReason : Type 0 where
  channel_closed frame_read_error child_panic child_terminate : StopReason

pub data ReaderEvent (M : Type 0) : Type 0 where
  object_available : M → ReaderEvent M
  wait_for_object : ReaderEvent M
  stop_reader : StopReason → ReaderEvent M

module _ {S : Type 0} (half : ReadHalf S) where
  -- After a `read`: go on with the longer buffer, or stop.
  unfoldable pub after_read :
      (List ℕ → S → Option (IoResult (List ℕ) × S))
      → List ℕ
      → IoResult (List ℕ) × S
      → Option (IoResult (List ℕ) × S)
  after_read again buf (failed e, s) = some (failed e, s)
  after_read again buf (ok [], s) = some (failed unexpected_eof, s)
  after_read again buf (ok (b ∷ bs), s) = again (buf ++ (b ∷ bs)) s

  -- The loop of `read_n_bytes`; none where the fuel is used up.
  unfoldable pub read_loop : ℕ → ℕ → List ℕ → S → Option (IoResult (List ℕ) × S)
  read_loop zero len buf s = if ltb (length buf) len then none else some (ok buf, s)
  read_loop (suc fuel) len buf s =
      if ltb (length buf) len
      then after_read (read_loop fuel len) buf
          (half.read (min (len - length buf) frame_read_chunk_size) s)
      else some (ok buf, s)

  -- A read that is no end of the stream takes at least one byte.
  unfoldable pub read_n_bytes : ℕ → S → Option (IoResult (List ℕ) × S)
  read_n_bytes len s = read_loop len len [] s

unfoldable pub checked_frame_length : ℕ → ℕ → IoResult ℕ
checked_frame_length len max_frame_size =
    if ltb max_frame_size len
    then failed invalid_data
    else if ltb max_vec_len len
    then failed invalid_data
    else ok len

unfoldable pub decoded : {M : Type 0} → Option M → IoResult M
decoded (some m) = ok m
decoded none = failed invalid_data

module _ {M : Type 0} (codec : Codec M) where
  unfoldable pub decode_frame : List ℕ → IoResult M
  decode_frame bytes = decoded (codec.decode bytes)

  unfoldable pub decode_read : {S : Type 0} → IoResult (List ℕ) × S → IoResult M × S
  decode_read (ok bytes, s) = (decode_frame bytes, s)
  decode_read (failed e, s) = (failed e, s)

  unfoldable pub encode_network_message : M → List ℕ → List ℕ
  encode_network_message m buf = buf ++ be_bytes 8 (codec.encoded_len m) ++ codec.encode m

  -- The messages of a batch, in order.
  unfoldable pub encode_batch : List M → List ℕ → List ℕ
  encode_batch [] buf = buf
  encode_batch (m ∷ ms) buf = encode_batch ms (encode_network_message m buf)

unfoldable pub stop_reason : ErrorKind → StopReason
stop_reason unexpected_eof = channel_closed
stop_reason invalid_data = frame_read_error
stop_reason other_error = frame_read_error

module _ {M S : Type 0} where
  unfoldable pub reader_next : IoResult M × S → Option S × List (ReaderEvent M)
  reader_next (ok m, s) = (some s, object_available m ∷ wait_for_object ∷ [])
  reader_next (failed e, s) = (none, stop_reader (stop_reason e) ∷ [])

  unfoldable pub after_wait :
      (Option S → Option (List M × StopReason))
      → Option (Option S × List (ReaderEvent M))
      → Option (List M × StopReason)
  after_wait again (some (s, object_available m ∷ events)) =
      Option.map (λ rest. (m ∷ rest.0, rest.1)) (again s)
  after_wait again (some (s, stop_reader reason ∷ events)) = some ([], reason)
  after_wait again _ = none

module _ {M S : Type 0} (codec : Codec M) (half : ReadHalf S) (max_frame_size : ℕ) where
  unfoldable pub read_payload : IoResult ℕ → S → Option (IoResult M × S)
  read_payload (failed e) s = some (failed e, s)
  read_payload (ok len) s = Option.map (decode_read codec) (read_n_bytes half len s)

  unfoldable pub read_after_length : IoResult ℕ × S → Option (IoResult M × S)
  read_after_length (failed e, s) = some (failed e, s)
  read_after_length (ok wire_length, s) =
      read_payload (checked_frame_length wire_length max_frame_size) s

  unfoldable pub read_network_message : S → Option (IoResult M × S)
  read_network_message s = read_after_length (half.read_u64 s)

  -- `SessionReader::handle` of `WaitForObject`, with the state after it.
  unfoldable pub handle_wait : Option S → Option (Option S × List (ReaderEvent M))
  handle_wait none = some (none, stop_reader channel_closed ∷ [])
  handle_wait (some s) = Option.map reader_next (read_network_message s)

  -- The reader from a `WaitForObject` that waits: what it hands to its session, and why it stops; none
  -- where the fuel is used up.
  unfoldable pub run_reader : ℕ → Option S → Option (List M × StopReason)
  run_reader zero s = none
  run_reader (suc fuel) s = after_wait (run_reader fuel) (handle_wait s)

-- How the writer task stands: all went out, or the stream failed and the session was stopped.
pub data WriteOutcome : Type 0 where
  all_written write_failed : WriteOutcome

module _ {M S : Type 0} (codec : Codec M) (half : WriteHalf S) where
  -- `write_all`, and `flush` where that succeeds.
  unfoldable pub write_batch : List M → S → Bool × S
  write_batch ms s =
      let wrote : Bool × S = half.write_all (encode_batch codec ms []) s in
      if wrote.0 then half.flush wrote.1 else wrote

  -- `run_write_task` over all that is sent to it until the channel closes. A turn takes a message and
  -- those that wait with it; besides how it ended there is what it did not take.
  unfoldable pub run_write_task : List ℕ → List M → S → WriteOutcome × List M × S
  run_write_task [] ms s = (all_written, ms, s)
  run_write_task (waiting ∷ turns) [] s = (all_written, [], s)
  run_write_task (waiting ∷ turns) (m ∷ ms) s =
      let wrote : Bool × S = write_batch (m ∷ take waiting ms) s in
      let rest : WriteOutcome × List M × S = run_write_task turns (drop waiting ms) wrote.1 in
      if wrote.0 then rest else (write_failed, drop waiting ms, wrote.1)

pub data SessionMessage (M : Type 0) : Type 0 where
  send available : M → SessionMessage M

pub data SupervisionEvent : Type 0 where
  actor_failed actor_terminated other_event : SupervisionEvent

pub data TcpEvent (M : Type 0) : Type 0 where
  to_writer message_received : M → TcpEvent M

module _ {M : Type 0} where
  -- `Session::handle`.
  unfoldable pub handle_session : SessionMessage M → TcpEvent M
  handle_session (send m) = to_writer m
  handle_session (available m) = message_received m

-- Whether the session stops, and why.
unfoldable pub handle_tcp_supervisor_evt : SupervisionEvent → Option StopReason
handle_tcp_supervisor_evt actor_failed = some child_panic
handle_tcp_supervisor_evt actor_terminated = some child_terminate
handle_tcp_supervisor_evt other_event = none
