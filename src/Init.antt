-- ===== src/Init.antt =====
-- dinix-init (dinix-init/src), which prepares a container before dinit starts: a spec is read line by
-- line, the variables in its paths are replaced, and its steps are applied one after the other.
pub mod Outcome
pub mod Expand
pub mod Spec
pub mod Apply
