-- ===== src/Domain/Security.antt =====
-- crates/domain/src/security.rs: the evidence that the kernel keeps about an adapter.

pub data TrustState : Type 0 where
  trusted untrusted : TrustState

pub data ConformanceState : Type 0 where
  untested passed failed : ConformanceState
