-- ===== src/Core/Event.antt =====
-- `Event<Payload>` of include/klstream/core/event.hpp. The clock's reading is an argument.
use klstream.Prelude.{ℕ, ◌-◌, leb, if◌then◌else◌}

pub record Event (P : Type 0) : Type 0 where
  pub timestamp_ns : ℕ
  pub key : ℕ
  pub seq : ℕ
  pub payload : P  -- `data`

-- `make` at a clock that reads `now_ns`.
unfoldable pub make : {P : Type 0} → ℕ → P → ℕ → ℕ → Event P
make now_ns d k s = record { timestamp_ns = now_ns; key = k; seq = s; payload = d }

unfoldable pub latency_ns : {P : Type 0} → ℕ → Event P → ℕ
latency_ns now_ns e = if leb e.timestamp_ns now_ns then now_ns - e.timestamp_ns else 0
