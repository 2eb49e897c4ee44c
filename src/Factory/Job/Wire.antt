-- ===== src/Factory/Job/Wire.antt =====
-- The wire form of the job options in ractor/src/factory/job.rs: two big-endian 64-bit words.
use ractor.Prelude.{
  ℕ, ◌%◌, ◌^◌, ◌<◌, ◌≡◌, ◌≢◌, ◌∙◌, List, ◌++◌, Option, none, some, arith, ltb, length,
  length-append, if◌then◌else◌, get_or, ◌==◌, take, drop, take-append_length, drop-append_length,
}
use ractor.Prelude.Bytes.{be_bytes, be_value, be_value-be_bytes, length-be_bytes}
use ractor.Factory.Job.{Clock, JobOptions, new_options, reset_ttl_timer}

abbrev u64_mod : ℕ
u64_mod = 2 ^ 64

-- `into_bytes`: the submit time since the epoch and the TTL, 0 for none, cut to 64 bits.
pub into_bytes : JobOptions → List ℕ
into_bytes o = be_bytes 8 (o.submit_time % u64_mod) ++ be_bytes 8 (get_or o.ttl 0 % u64_mod)

-- A TTL of 0 on the wire stands for none.
ttl_of : ℕ → Option ℕ
ttl_of n = if ltb 0 n then some n else none

-- `from_bytes`: other lengths give the default options; the span does not travel.
pub from_bytes : Clock → List ℕ → JobOptions
unfolding be_value ttl_of
from_bytes c bytes =
    if length bytes == 16
    then reset_ttl_timer c (record (new_options c none none) {
      submit_time = be_value 0 (take 8 bytes);
      ttl = ttl_of (be_value 0 (drop 8 bytes));
    })
    else new_options c none none

length-into_bytes : (o : JobOptions) → length (into_bytes o) ≡ 16
unfolding into_bytes
length-into_bytes o =
    length-append (be_bytes 8 (o.submit_time % u64_mod)) (be_bytes 8 (get_or o.ttl 0 % u64_mod))
    ∙ omega (
      arith,
      length-be_bytes 8 (o.submit_time % u64_mod),
      length-be_bytes 8 (get_or o.ttl 0 % u64_mod),
    )

-- The receiver reads the two words back, each cut to 64 bits.
from_bytes-words :
    (c : Clock) (o : JobOptions)
    → from_bytes c (into_bytes o)
      ≡ reset_ttl_timer c (record (new_options c none none) {
        submit_time = o.submit_time % u64_mod;
        ttl = ttl_of (get_or o.ttl 0 % u64_mod);
      })
unfolding from_bytes
from_bytes-words c o = ground (
  arith,
  length-into_bytes o,
  take_words,
  drop_words,
  be_value-be_bytes 8 (o.submit_time % u64_mod) (omega arith),
  be_value-be_bytes 8 (get_or o.ttl 0 % u64_mod) (omega arith),
)
  where
    take_words : take 8 (into_bytes o) ≡ be_bytes 8 (o.submit_time % u64_mod)
    take_words = unfold into_bytes in take-append_length 8 _ _ (length-be_bytes 8 _)

    drop_words : drop 8 (into_bytes o) ≡ be_bytes 8 (get_or o.ttl 0 % u64_mod)
    drop_words = unfold into_bytes in drop-append_length 8 _ _ (length-be_bytes 8 _)

-- What the sender wrote arrives: where the submit time and the TTL fit in 64 bits and the TTL is
-- not 0, the receiver has the same submit time and TTL, its own clock's times, no span, and a timer
-- rebuilt from the submit time.
pub from_bytes-into_bytes :
    (c : Clock) (o : JobOptions)
    → o.submit_time < u64_mod
    → get_or o.ttl 0 < u64_mod
    → o.ttl ≢ some 0
    → from_bytes c (into_bytes o)
      ≡ reset_ttl_timer c
          (record (new_options c none none) { submit_time = o.submit_time; ttl = o.ttl })
unfolding ttl_of
from_bytes-into_bytes c o fits ttl_fits nonzero = from_bytes-words c o ∙ ground arith
