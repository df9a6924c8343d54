-- ===== src/Info.antt =====
-- pkg/apis/info: the views of the cluster that the scheduler and the controller share.
pub mod Device
pub mod Resource
pub mod Node
pub mod NodeType
pub mod Job
