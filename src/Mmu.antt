-- ===== src/Mmu.antt =====
-- inc/mmu.h, inc/memlayout.h, inc/types.h and the address macros of kern/pmap.h: how a linear
-- address, a page-table entry and the kernel's memory layout are cut up. A shift to the right is a
-- division, and a mask of ones a remainder; addresses are 32 bits wide.
pub mod Laws
use pmake_os.Base.{ℕ, ◌+◌, ◌-◌, ◌*◌, ◌/◌, ◌%◌, ◌^◌, Bool, not, bit_and, bit_or, ◌==◌}

abbrev pub u32 : ℕ → ℕ
u32 n = n % 2 ^ 32

abbrev pub pg_size : ℕ
pg_size = 4096

abbrev pub pt_size : ℕ
pt_size = 4096 * 1024

abbrev pub npdentries : ℕ
npdentries = 1024

abbrev pub nptentries : ℕ
nptentries = 1024

-- Page table entry flags.
abbrev pub pte_p : ℕ
pte_p = 0x001

abbrev pub pte_w : ℕ
pte_w = 0x002

abbrev pub pte_u : ℕ
pte_u = 0x004

abbrev pub pte_pwt : ℕ
pte_pwt = 0x008

abbrev pub pte_pcd : ℕ
pte_pcd = 0x010

abbrev pub pte_avail : ℕ
pte_avail = 0xE00

abbrev pub pte_syscall : ℕ
pte_syscall = 0xE07

-- The memory layout.
abbrev pub kern_base : ℕ
kern_base = 0xF000_0000

abbrev pub io_phys_mem : ℕ
io_phys_mem = 0x0A_0000

abbrev pub ext_phys_mem : ℕ
ext_phys_mem = 0x10_0000

abbrev pub kstacktop : ℕ
kstacktop = kern_base

abbrev pub mmiolim : ℕ
mmiolim = kstacktop - pt_size

abbrev pub mmiobase : ℕ
mmiobase = mmiolim - pt_size

abbrev pub ulim : ℕ
ulim = mmiobase

abbrev pub uvpt : ℕ
uvpt = ulim - pt_size

abbrev pub upages : ℕ
upages = uvpt - pt_size

abbrev pub uenvs : ℕ
uenvs = upages - pt_size

abbrev pub utop : ℕ
utop = uenvs

abbrev pub uxstacktop : ℕ
uxstacktop = utop

abbrev pub ustacktop : ℕ
ustacktop = utop - 2 * pg_size

abbrev pub mpentry_paddr : ℕ
mpentry_paddr = 0x7000

-- Page number, page directory index, page table index and offset of a linear address.
unfoldable pub pg_num : ℕ → ℕ
pg_num la = la / 2 ^ 12

unfoldable pub pdx : ℕ → ℕ
pdx la = la / 2 ^ 22 % 1024

unfoldable pub ptx : ℕ → ℕ
ptx la = la / 2 ^ 12 % 1024

unfoldable pub pg_off : ℕ → ℕ
pg_off la = la % 4096

-- PGADDR: a linear address from its three parts.
unfoldable pub pg_addr : ℕ → ℕ → ℕ → ℕ
pg_addr d t o = bit_or (bit_or (u32 (d * 2 ^ 22)) (u32 (t * 2 ^ 12))) o

-- PTE_ADDR, `pte & ~0xFFF`: the twelve lowest bits are cleared.
unfoldable pub pte_addr : ℕ → ℕ
pte_addr pte = pte / 4096 * 4096

-- C's truth value of `word & mask`.
unfoldable pub test : ℕ → ℕ → Bool
test word mask = not (bit_and word mask == 0)

-- ROUNDDOWN and ROUNDUP of a 32-bit value, `n` positive.
unfoldable pub round_down : ℕ → ℕ → ℕ
round_down a n = a - a % n

unfoldable pub round_up : ℕ → ℕ → ℕ
round_up a n = round_down (u32 (a + n - 1)) n
