-- ===== src/Env/Load.antt =====
-- region_alloc, load_icode and env_create of kern/env.c: a program's image becomes an environment. The
-- image is a function from offsets to bytes.
use pmake_os.Base.{
  ℕ, zero, suc, ◌+◌, ◌-◌, ◌*◌, ◌/◌, ◌%◌, ◌^◌, Bool, ◌&&◌, not, none, some, bit_or, ◌==◌,
  if◌then◌else◌,
}
use pmake_os.Kernel.{EnvType, Env}
use pmake_os.Kernel.Run.{M, pure, ◌>>=◌, ◌>>◌, gets, modify, panic, deref}
use pmake_os.Kernel.Ret.{Ret, got, fail, err, Error}
use pmake_os.Mmu.{
  u32, pg_size, pte_p, pte_w, pte_u, pdx, ptx, test, round_down, round_up, ustacktop,
}
use pmake_os.Pmap.Alloc.{page_alloc}
use pmake_os.Pmap.Paging.{slot, store, page_insert}
use pmake_os.Env.{set_env, env_alloc}

abbrev is_no_mem : Ret → Bool
is_no_mem (err Error.e_no_mem) = Bool.true
is_no_mem _ = Bool.false

-- The loop of region_alloc over n pages from `va` on, for the environment's directory.
unfoldable pub region_loop : ℕ → ℕ → ℕ → M (Unit {0})
region_loop pgdir zero va = pure tt
region_loop pgdir (suc n) va = do
  pp ← page_alloc 0
  elim pp [
    | none ↦ panic
    | some p ↦ do
      r ← page_insert pgdir p va (bit_or pte_w pte_u)
      if is_no_mem r then panic else region_loop pgdir n (u32 (va + pg_size))
  ]

unfoldable pub region_alloc : ℕ → ℕ → ℕ → M (Unit {0})
unfolding region_loop
region_alloc e va len = do
  env_pgdir ← gets (λ k. (k.envs e).env_pgdir)
  pgdir ← deref env_pgdir
  region_loop pgdir ((round_up (u32 (va + len)) pg_size - round_down va pg_size) / pg_size)
      (round_down va pg_size)

-- A store of a byte by the kernel through the loaded directory; the lowest byte of a word comes first. A
-- store that the entries do not allow is a page fault in the kernel, which panics.
unfoldable pub put_byte : ℕ → ℕ → M (Unit {0})
put_byte va b = do
  pde ← gets (λ k. k.word k.cr3 (pdx va))
  pte ← gets (λ k. k.word (pde / 4096) (ptx va))
  w ← gets (λ k. k.word (pte / 4096) (va % 4096 / 4))
  let unit = 256 ^ (va % 4)
  let w' = w - w / unit % 256 * unit + b * unit
  if test pde pte_p && (test pte pte_p && (test pde pte_w && test pte pte_w))
      then modify (store (slot (pte / 4096) (va % 4096 / 4)) w')
      else panic

-- memset to 0 and memcpy at an address of the environment.
unfoldable pub clear_va : ℕ → ℕ → M (Unit {0})
unfolding put_byte
clear_va zero va = pure tt
clear_va (suc n) va = do put_byte va 0; clear_va n (u32 (va + 1))

unfoldable pub copy_va : (ℕ → ℕ) → ℕ → ℕ → ℕ → M (Unit {0})
unfolding put_byte
copy_va binary offset zero va = pure tt
copy_va binary offset (suc n) va = do
  put_byte va (binary offset)
  copy_va binary (offset + 1) n (u32 (va + 1))

abbrev pub elf_magic : ℕ
elf_magic = 0x464C457F

abbrev pub elf_prog_load : ℕ
elf_prog_load = 1

-- The fields of struct Elf and struct Proghdr that the loader reads.
pub record Elf : Type 0 where
  pub e_magic : ℕ
  pub e_entry : ℕ
  pub e_phoff : ℕ
  pub e_phnum : ℕ

pub record Proghdr : Type 0 where
  pub p_type : ℕ
  pub p_offset : ℕ
  pub p_va : ℕ
  pub p_filesz : ℕ
  pub p_memsz : ℕ

abbrev pub half_at : (ℕ → ℕ) → ℕ → ℕ
half_at binary o = binary o + binary (o + 1) * 256

abbrev pub word_at : (ℕ → ℕ) → ℕ → ℕ
word_at binary o = half_at binary o + half_at binary (o + 2) * 2 ^ 16

unfoldable pub elf_header : (ℕ → ℕ) → Elf
elf_header binary = record {
  e_magic = word_at binary 0;
  e_entry = word_at binary 24;
  e_phoff = word_at binary 28;
  e_phnum = half_at binary 44;
}

unfoldable pub prog_header : (ℕ → ℕ) → ℕ → Proghdr
prog_header binary o = record {
  p_type = word_at binary o;
  p_offset = word_at binary (o + 4);
  p_va = word_at binary (o + 8);
  p_filesz = word_at binary (o + 16);
  p_memsz = word_at binary (o + 20);
}

-- A segment that is to be loaded, and the loop over n program headers from the offset on.
unfoldable pub load_segment : ℕ → (ℕ → ℕ) → Proghdr → M (Unit {0})
unfolding region_alloc clear_va copy_va
load_segment e binary ph = do
  region_alloc e ph.p_va ph.p_memsz
  clear_va ph.p_memsz ph.p_va
  copy_va binary ph.p_offset ph.p_filesz ph.p_va

unfoldable pub load_segments : ℕ → (ℕ → ℕ) → ℕ → ℕ → M (Unit {0})
unfolding prog_header load_segment
load_segments e binary zero o = pure tt
load_segments e binary (suc n) o = do
  (if (prog_header binary o).p_type == elf_prog_load
      then load_segment e binary (prog_header binary o)
      else pure tt)
  load_segments e binary n (o + 32)

unfoldable pub load_icode : ℕ → (ℕ → ℕ) → M (Unit {0})
unfolding elf_header load_segments
load_icode e binary =
    let elf = elf_header binary in
    if not (elf.e_magic == elf_magic) then panic else do
      env_pgdir ← gets (λ k. (k.envs e).env_pgdir)
      pgdir ← deref env_pgdir
      modify (λ k. record k { cr3 = pgdir })
      load_segments e binary elf.e_phnum elf.e_phoff
      modify (λ k. record k { cr3 = k.kern_pgdir })
      modify (λ k.
          let old : Env = k.envs e in
          set_env e (record old { env_tf = record old.env_tf { tf_eip = elf.e_entry } }) k)
      region_alloc e (ustacktop - pg_size) pg_size

unfoldable pub env_create : (ℕ → ℕ) → EnvType → M (Unit {0})
unfolding load_icode
env_create binary type = do
  r ← env_alloc 0
  elim r [
    | fail x ↦ panic
    | got e ↦ do
      load_icode e binary
      modify (λ k. set_env e (record (k.envs e) { env_type = type }) k)
  ]
