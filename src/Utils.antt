-- ===== src/Utils.antt =====
-- simplyblock_core/utils/__init__.py: CPU masks, the split of the CPUs among the threads of the
-- storage process, free ports, huge pages.
pub mod Masks
pub mod Cores
pub mod Ports
pub mod Sizes
