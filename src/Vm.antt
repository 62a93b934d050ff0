-- ===== src/Vm.antt =====
-- services/VmLimits.ts and services/VmEnsureService.ts: the virtual machine of a project.
pub mod Limits
pub mod Ensure
