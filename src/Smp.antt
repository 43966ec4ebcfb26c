-- ===== src/Smp.antt =====
-- kern/mpconfig.c: the search for the table in which the firmware lists the processors, and mp_init.
-- The memory that the firmware filled is a function of the kernel address; the output and the ports
-- at the end of mp_init are left out.
use pmake_os.Base.{
  ℕ, zero, suc, ◌+◌, ◌-◌, ◌*◌, ◌/◌, ◌%◌, ◌^◌, Bool, true, false, ◌&&◌, ◌||◌, not, Option, none,
  some, List, [], ◌∷◌, leb, ltb, ◌==◌, if◌then◌else◌, update, bit_and,
}
use pmake_os.Mmu.{u32, pg_num, kern_base}
use pmake_os.Kernel.{CpuStatus, cpu_started}
use pmake_os.Kernel.Run.{M, undefined, pure, ◌>>=◌, panic}
use pmake_os.Pmap.Setup.{ncpu}
use pmake_os.Str.{Memory}

abbrev mpproc_boot : ℕ
mpproc_boot = 0x02

-- The address that KADDR returns.
unfoldable pub kaddr_at : ℕ → M ℕ
kaddr_at pa k = if leb k.npages (pg_num pa) then panic k else pure (u32 (pa + kern_base)) k

unfoldable pub read16 : Memory → ℕ → ℕ
read16 m a = m a + 256 * m (a + 1)

unfoldable pub read32 : Memory → ℕ → ℕ
unfolding read16
read32 m a = read16 m a + 65536 * read16 m (a + 2)

-- memcmp with a constant string finds no difference.
unfoldable pub has_signature : Memory → ℕ → List ℕ → Bool
has_signature m a [] = true
has_signature m a (c ∷ cs) = let rest = has_signature m (a + 1) cs in (m a == c) && rest

-- The bytes that `sum` adds up, before the result is cut to a byte.
unfoldable pub sum_loop : Memory → ℕ → ℕ → ℕ
sum_loop m a zero = 0
sum_loop m a (suc len) = m a + sum_loop m (a + 1) len

unfoldable pub sum : Memory → ℕ → ℕ → ℕ
unfolding sum_loop
sum m a len = sum_loop m a len % 256

-- The loop of mpsearch1 over the n structures from address a on.
unfoldable pub mpsearch_loop : Memory → ℕ → ℕ → Option ℕ
unfolding has_signature sum
mpsearch_loop m a zero = none
mpsearch_loop m a (suc n) =
    let rest = mpsearch_loop m (a + 16) n in
    if has_signature m a (0x5F ∷ 0x4D ∷ 0x50 ∷ 0x5F ∷ []) && (sum m a 16 == 0) then some a else rest

unfoldable pub mpsearch1 : Memory → ℕ → ℕ → M (Option ℕ)
unfolding mpsearch_loop kaddr_at
mpsearch1 m a len = do
  mp ← kaddr_at a
  end ← kaddr_at (u32 (a + len))
  pure (mpsearch_loop m mp ((end - mp + 15) / 16))

-- The last place where mpsearch looks, if the first one has no structure.
unfoldable pub or_rom : Memory → Option ℕ → M (Option ℕ)
unfolding mpsearch1
or_rom m (some mp) = pure (some mp)
or_rom m none = mpsearch1 m 0xF0000 0x10000

unfoldable pub mpsearch : Memory → M (Option ℕ)
unfolding mpsearch1 or_rom read16 kaddr_at
mpsearch m = do
  bda ← kaddr_at 0x400
  let ebda = read16 m (bda + 0x0E)
  let base = u32 (read16 m (bda + 0x13) * 1024)
  mp ←
      if ebda == 0
      then mpsearch1 m (u32 (base + 2 ^ 32 - 1024)) 1024
      else mpsearch1 m (ebda * 16) 1024
  or_rom m mp

-- The tests of mpconfig on the table at conf.
unfoldable pub conf_passes : Memory → ℕ → Bool
unfolding has_signature sum read16
conf_passes m conf =
    let length = read16 m (conf + 4) in
    has_signature m conf (0x50 ∷ 0x43 ∷ 0x4D ∷ 0x50 ∷ [])
    && (sum m conf length == 0)
    && ((m (conf + 6) == 1) || (m (conf + 6) == 4))
    && ((sum m (conf + length) (read16 m (conf + 40)) + m (conf + 42)) % 256 == 0)

-- The structure at mp and its table.
unfoldable pub mpconfig_of : Memory → Option ℕ → M (Option ℕ)
unfolding conf_passes read32 kaddr_at
mpconfig_of m none = pure none
mpconfig_of m (some mp) =
    let physaddr = read32 m (mp + 4) in
    if (physaddr == 0) || not (m (mp + 11) == 0)
    then pure none
    else (do conf ← kaddr_at physaddr; pure (if conf_passes m conf then some conf else none))

unfoldable pub mpconfig : Memory → M (Option ℕ)
unfolding mpsearch mpconfig_of
mpconfig m = do mp ← mpsearch m; mpconfig_of m mp

-- The variables that mp_init sets; `bootcpu` is an index of cpus.
pub record Cpus : Type 0 where
  pub cpu_id : ℕ → ℕ
  pub cpu_status : ℕ → CpuStatus
  pub bootcpu : ℕ
  pub ismp : Bool
  pub count : ℕ
  pub lapicaddr : ℕ

-- One entry of type MPPROC at p.
unfoldable pub add_cpu : Memory → ℕ → Cpus → Cpus
add_cpu m p s =
    let s1 = if bit_and (m (p + 3)) mpproc_boot == 0 then s else record s { bootcpu = s.count } in
    if ltb s1.count ncpu
    then record s1 { cpu_id = update s1.cpu_id s1.count s1.count; count = s1.count + 1 }
    else s1

-- The loop of mp_init over the n entries from p on.
unfoldable pub entries_loop : Memory → ℕ → ℕ → Cpus → Cpus
unfolding add_cpu
entries_loop m p zero s = s
entries_loop m p (suc n) s =
    let is_proc = m p == 0 in
    let rest =
      entries_loop m (p + (if is_proc then 20 else 8)) n (if is_proc then add_cpu m p s else s) in
    if leb (m p) 4 then rest else record s { ismp = false }

-- What follows the loop; an index of bootcpu behind the array has no meaning in C.
unfoldable pub mp_finish : Cpus → M Cpus
mp_finish s k =
    if leb ncpu s.bootcpu
    then undefined
    else (let s1 = record s { cpu_status = update s.cpu_status s.bootcpu cpu_started } in
        pure (if s1.ismp then s1 else record s1 { count = 1; lapicaddr = 0 }) k)

unfoldable pub mp_init_with : Memory → Cpus → Option ℕ → M Cpus
unfolding entries_loop mp_finish read16 read32
mp_init_with m s none = pure s
mp_init_with m s (some conf) = mp_finish (
    entries_loop m (conf + 44) (read16 m (conf + 34))
      (record s { ismp = true; lapicaddr = read32 m (conf + 36) }))

unfoldable pub mp_init : Memory → Cpus → M Cpus
unfolding mpconfig mp_init_with
mp_init m s = do conf ← mpconfig m; mp_init_with m (record s { bootcpu = 0 }) conf
