-- ===== src/Controller.antt =====
-- crates/koprs/src/controller.rs: the controller runtime. kube-runtime's controller is a parameter.
pub mod Builder
pub mod Reconcile
pub mod Counting
pub mod Settings
pub mod Run
pub mod Leadership
pub mod Health
pub mod Startup
pub mod Examples
