-- ===== src/Obs.antt =====
-- pkg/obs: what a request to a model costs.
pub mod Cost
