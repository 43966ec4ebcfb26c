-- ===== src/Trap/Percpu.antt =====
-- trap_init_percpu of kern/trap.c, with gdt of kern/env.c: the stack on which a CPU enters the kernel.
-- `cpu_ts i` is the address of the task state segment of CPU i.
use pmake_os.Base.{ℕ, ◌+◌, ◌-◌, ◌*◌, ◌/◌, ◌%◌, ◌^◌, ◌<◌, ◌≡◌, ◌==◌, if◌then◌else◌, update}
use pmake_os.Mmu.{kstacktop}
use pmake_os.Kernel.{Kernel}
use pmake_os.Pmap.Setup.{kstksize, kstkgap}
use pmake_os.Trap.{gd_kt}

-- struct Segdesc
pub record Segdesc : Type 0 where
  pub sd_lim_15_0 : ℕ
  pub sd_base_15_0 : ℕ
  pub sd_base_23_16 : ℕ
  pub sd_type : ℕ
  pub sd_s : ℕ
  pub sd_dpl : ℕ
  pub sd_p : ℕ
  pub sd_lim_19_16 : ℕ
  pub sd_avl : ℕ
  pub sd_rsv1 : ℕ
  pub sd_db : ℕ
  pub sd_g : ℕ
  pub sd_base_31_24 : ℕ

unfoldable pub seg_null : Segdesc
seg_null = record {
  sd_lim_15_0 = 0;
  sd_base_15_0 = 0;
  sd_base_23_16 = 0;
  sd_type = 0;
  sd_s = 0;
  sd_dpl = 0;
  sd_p = 0;
  sd_lim_19_16 = 0;
  sd_avl = 0;
  sd_rsv1 = 0;
  sd_db = 0;
  sd_g = 0;
  sd_base_31_24 = 0;
}

-- SEG: a segment of the whole pages below the limit.
unfoldable pub seg : ℕ → ℕ → ℕ → ℕ → Segdesc
seg type base lim dpl = record {
  sd_lim_15_0 = lim / 2 ^ 12 % 2 ^ 16;
  sd_base_15_0 = base % 2 ^ 16;
  sd_base_23_16 = base / 2 ^ 16 % 2 ^ 8;
  sd_type = type;
  sd_s = 1;
  sd_dpl = dpl;
  sd_p = 1;
  sd_lim_19_16 = lim / 2 ^ 28;
  sd_avl = 0;
  sd_rsv1 = 0;
  sd_db = 1;
  sd_g = 1;
  sd_base_31_24 = base / 2 ^ 24;
}

-- SEG16: a segment of the bytes up to the limit.
unfoldable pub seg16 : ℕ → ℕ → ℕ → ℕ → Segdesc
seg16 type base lim dpl = record {
  sd_lim_15_0 = lim % 2 ^ 16;
  sd_base_15_0 = base % 2 ^ 16;
  sd_base_23_16 = base / 2 ^ 16 % 2 ^ 8;
  sd_type = type;
  sd_s = 1;
  sd_dpl = dpl;
  sd_p = 1;
  sd_lim_19_16 = lim / 2 ^ 16 % 2 ^ 4;
  sd_avl = 0;
  sd_rsv1 = 0;
  sd_db = 1;
  sd_g = 0;
  sd_base_31_24 = base / 2 ^ 24;
}

abbrev pub gd_kd : ℕ
gd_kd = 0x10

abbrev pub gd_ut : ℕ
gd_ut = 0x18

abbrev pub gd_ud : ℕ
gd_ud = 0x20

abbrev pub gd_tss0 : ℕ
gd_tss0 = 0x28

-- The initial table.
unfoldable pub gdt : ℕ → Segdesc
gdt i =
    if i == gd_kt / 8
    then seg 0xA 0 0xFFFF_FFFF 0
    else if i == gd_kd / 8
    then seg 0x2 0 0xFFFF_FFFF 0
    else if i == gd_ut / 8
    then seg 0xA 0 0xFFFF_FFFF 3
    else if i == gd_ud / 8
    then seg 0x2 0 0xFFFF_FFFF 3
    else seg_null

-- What trap_init_percpu sets: the fields of the CPU's task state segment, the table, and the selector
-- that is loaded.
pub record Entry : Type 0 where
  pub ts_esp0 : ℕ → ℕ
  pub ts_ss0 : ℕ → ℕ
  pub table : ℕ → Segdesc
  pub tr : ℕ

-- The size of struct Taskstate is 104.
unfoldable pub trap_init_percpu : (ℕ → ℕ) → ℕ → Entry → Entry
unfolding seg16
trap_init_percpu cpu_ts cid e = record e {
  ts_esp0 = update e.ts_esp0 cid (kstacktop - cid * (kstksize + kstkgap));
  ts_ss0 = update e.ts_ss0 cid gd_kd;
  table = λ i.
      if i == gd_tss0 / 8 + cid
      then record (seg16 0x9 (cpu_ts cid) 104 0) { sd_s = 0 }
      else e.table i;
  tr = gd_tss0 + 8 * cid;
}

abbrev pub base_of : Segdesc → ℕ
base_of d = d.sd_base_15_0 + d.sd_base_23_16 * 2 ^ 16 + d.sd_base_31_24 * 2 ^ 24

-- The limit of a descriptor in its own units.
abbrev pub limit_of : Segdesc → ℕ
limit_of d = d.sd_lim_15_0 + d.sd_lim_19_16 * 2 ^ 16

-- The selector names, for the kernel only, an available task state segment of 32 bits at the address,
-- with the limit `sizeof(struct Taskstate)`, that is no segment of the kernel or of programs.
pub record IsTaskOf (address : ℕ) (e : Entry) : Type 0 where
  pub aligned : e.tr % 8 ≡ 0
  pub behind : gd_ud / 8 < e.tr / 8
  pub base : base_of (e.table (e.tr / 8)) ≡ address
  pub limit : limit_of (e.table (e.tr / 8)) ≡ 104
  pub bytes : (e.table (e.tr / 8)).sd_g ≡ 0
  pub present : (e.table (e.tr / 8)).sd_p ≡ 1
  pub type : (e.table (e.tr / 8)).sd_type ≡ 9
  pub system : (e.table (e.tr / 8)).sd_s ≡ 0
  pub privileged : (e.table (e.tr / 8)).sd_dpl ≡ 0
