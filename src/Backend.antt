-- ===== src/Backend.antt =====
-- backend_coordinator.go, backend_lease.go, backend_resource.go and backend_admission.go: leases of the
-- lanes of a downstream resource, as many at once as the lane's limit. The maps are association lists,
-- `strings.Contains` is a parameter, and the events that are emitted change no state.
mod Defs
pub mod Holding
pub mod Counting
pub mod Acquiring
pub mod Capacity
pub mod Tests
pub use Defs.{
  BackendOperation, LanePolicy, LaneState, AdmissionReason, Decision, Coordinator, Context, Lease,
  Acquired,
}
unfoldable pub use Defs.{new_coordinator, acquire, release_lane}
