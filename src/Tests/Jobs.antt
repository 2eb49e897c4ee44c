-- ===== src/Tests/Jobs.antt =====
-- Jobs and their wire form.
use ractor.Prelude.{◌≡◌, some, none, arith}
use ractor.Factory.Job.{reset_ttl_timer, new_options}
use ractor.Factory.Job.Wire.{into_bytes, from_bytes, from_bytes-into_bytes}
use ractor.Tests.Data.{noon, stale}

from_bytes-into_bytes_example :
    from_bytes noon (into_bytes stale)
    ≡ reset_ttl_timer noon
        (record (new_options noon none none) { submit_time = 8000; ttl = some 50 })
from_bytes-into_bytes_example =
    from_bytes-into_bytes noon stale (omega arith) (omega arith) (ground arith)
