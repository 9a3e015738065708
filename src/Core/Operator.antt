-- ===== src/Core/Operator.antt =====
-- `OpStatus` of include/klstream/core/operator.hpp.
pub data OpStatus : Type 0 where
  processed : OpStatus
  idle : OpStatus
  blocked : OpStatus
