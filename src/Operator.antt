-- ===== src/Operator.antt =====
-- operator/: the controllers. Calls of the Kubernetes API are answered by parameters.
pub mod Kube
pub mod Buildjob
pub mod Build
pub mod Dispatcher
pub mod App
pub mod Domain
