-- ===== src/Core/Pinning.antt =====
-- `CoreAffinity` of include/klstream/core/pinning.hpp. What `apply_affinity` asks of the system has no
-- effect on the values computed.
use mathlib.Core.Bool.{Bool, true, false}

pub data CoreAffinity : Type 0 where
  any : CoreAffinity
  performance : CoreAffinity
  efficiency : CoreAffinity

-- `affinity != CoreAffinity::Any`
abbrev pub is_given : CoreAffinity → Bool
is_given any = false
is_given performance = true
is_given efficiency = true
