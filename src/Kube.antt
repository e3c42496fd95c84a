-- ===== src/Kube.antt =====
-- Kubernetes as the operator sees it: the objects that it reads and writes, calls chained with
-- their errors, and the client interface, which is a parameter of the model.
pub mod Objects
pub mod Calls
pub mod Json
pub mod Client
pub mod Rests
pub mod Failures
pub mod Leads
pub mod Triples
