-- ===== src/Domain.antt =====
-- crates/domain: the mirror enums that the kernel stores as integers.
pub mod Wire
pub mod RunState
pub mod Codec
pub mod RecoveryDisposition
pub mod Effect
pub mod EffectState
pub mod TimerState
pub mod DependencyCondition
pub mod WorkspaceAccessMode
pub mod LeaseEnforcementState
pub mod ReservationState
pub mod Security
