-- ===== src/ApiConfigSync.antt =====
-- examples/apiconfigsync/src: the operator that copies an HTTP answer into a ConfigMap.
pub mod Addresses
pub mod Hosts
pub mod Policy
pub mod Client
pub mod Types
pub mod Fetch
pub mod Reconciler
pub mod Validator
pub mod Examples
