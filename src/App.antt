-- ===== src/App.antt =====
-- internal/app/app.go: the application, between the store and the cluster.
pub mod Program
pub mod Submit
pub mod Phases
pub mod Unsubmitted
pub mod Fenced
pub mod World
pub mod Invariant
pub mod AtMostOnce
pub mod Outcome
pub mod Status
pub mod Renewal
pub mod StatusAll
pub mod Pull
