-- ===== src/Pmap/Check/Mappings.antt =====
-- check_kern_pgdir finds no fault in the mappings that mem_init makes.
use pmake_os.Kernel.{Kernel}
