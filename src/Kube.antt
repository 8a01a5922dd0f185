-- ===== src/Kube.antt =====
-- What the controllers see of Kubernetes: objects read through the accessors of `unstructured`,
-- API errors, and the client of the API server as an interface. The client and the accessors are
-- third-party code, so they are parameters; `Kube.Store` states what is relied on.
pub mod Object
pub mod Client
pub mod Store
pub mod Memory
pub mod Deletion
pub mod Stable
pub mod Both
