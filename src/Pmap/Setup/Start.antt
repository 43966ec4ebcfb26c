-- ===== src/Pmap/Setup/Start.antt =====
-- mem_init from the first call of boot_alloc to the finished address space.
use pmake_os.Base.{ℕ, ◌+◌, ◌-◌, ◌*◌, ◌/◌, ◌≤◌, ◌<◌, ◌≡◌, ◌≢◌, List, length}
use pmake_os.Kernel.{Kernel}
use pmake_os.Mmu.{pg_size, pdx, uvpt, kern_base}
use pmake_os.Pmap.Alloc.Init.{usable_below}
use pmake_os.Pmap.Space.{view, IsSpace}
use pmake_os.Pmap.Setup.Layout.{layout}

-- The state k' is k after init_memory, for arrays at `pages` and `envs` up to `last`.
pub record IsStarted (pages envs last percpu n : ℕ) (k' : Kernel) : Type 0 where
  pub left : List ℕ
  pub space : IsSpace k' k'.kern_pgdir left
  pub loaded : k'.cr3 ≡ k'.kern_pgdir
  pub size : k'.npages ≡ n
  pub enough : length (usable_below ((last - kern_base) / pg_size) n) ≤ length left + 75
  pub views :
      (d i : ℕ)
      → d ≢ pdx uvpt
      → i < 1024
      → view k' k'.kern_pgdir d i
        ≡ layout (pages - kern_base) (envs - kern_base) (percpu - kern_base) (d * 1024 + i) 0
