-- ===== src/Agent.antt =====
-- The agent in a Kubernetes cluster: kube-cost-agent/internal. Kube has the parts of the Kubernetes
-- objects that it reads, Controller the events that it makes of them, Emitter their delivery.
pub mod Kube
pub mod Controller
pub mod Emitter
mod Tests
