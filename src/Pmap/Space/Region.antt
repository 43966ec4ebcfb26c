-- ===== src/Pmap/Space/Region.antt =====
-- boot_map_region maps a range of pages, and mmio_map_region a range of device memory.
use pmake_os.Base.{
  ℕ, zero, suc, ◌+◌, ◌-◌, ◌*◌, ◌/◌, ◌%◌, ◌^◌, ◌≤◌, ◌<◌, ◌≡◌, refl, sym, ap, ap₂, subst, ◌∙◌, ◌≢◌,
  inr, false, ◌&&◌, List, arith, bit_or, length, leb, ltb, ◌==◌, if◌then◌else◌,
}
use pmake_os.Kernel.{Kernel}
use pmake_os.Kernel.Run.{ok}
use pmake_os.Mmu.{
  u32, pte_p, pte_w, pte_pcd, pte_pwt, pdx, ptx, uvpt, mmiobase, mmiolim, round_up, round_down,
}
use pmake_os.Mmu.Laws.{present-test}
use pmake_os.Pmap.Paging.{slot, store, boot_map_loop, boot_map_region, mmio_map_region}
use pmake_os.Pmap.Space.{view, IsSpace}
use pmake_os.Pmap.Space.Walk.{
  has_table, pgdir_walk-IsWalked, store-IsSpace, store-slots, view-store,
}
use pmake_os.Pmap.Space.Steps.{
  region_entry, spans, credit, IsMapped, IsAside, page_of, page-IsAside, next-IsAside, views_step,
  credit-suc, more, first_spans, next_spans, next_left,
}

boot_map_loop-IsMapped :
    (n p pa perm : ℕ) (k : Kernel) (pgdir : ℕ) (xs : List ℕ)
    → IsSpace k pgdir xs
    → spans p n ≤ length xs + credit k pgdir p n
    → p + n ≤ 2 ^ 20
    → IsAside p n
    → pa < 2 ^ 32
    → (k' : Kernel) × (boot_map_loop pgdir perm n (u32 (p * 4096)) pa k ≡ ok tt k')
      × IsMapped pgdir p n pa perm xs k k'
unfolding boot_map_loop
boot_map_loop-IsMapped zero p pa perm k pgdir xs s some_pages range aside small = (
  k,
  refl,
  record {
    left = xs;
    space = s;
    enough = omega arith;
    size = refl;
    directory = refl;
    views = λ d i ne hi. ground arith;
  },
)
boot_map_loop-IsMapped (suc n) p pa perm k pgdir xs s some_pages range aside small =
    let va = u32 (p * 4096) in
    let at_p = page_of p (omega arith) in
    let own : pdx va ≢ pdx uvpt = page-IsAside p n (omega arith) aside in
    let (k1, t, ys, walked, w, few) =
      pgdir_walk-IsWalked k pgdir va xs s own
        (rw at_p.0 (first_spans p n k pgdir (length xs) some_pages)) in
    let entry = bit_or (bit_or pa pte_p) perm in
    let k2 = store (slot t (ptx va)) entry k1 in
    let s2 = store-IsSpace k1 pgdir va t entry ys w.space w.table own in
    let count : length xs + has_table k pgdir (p / 1024) ≡ length ys + 1 = rw at_p.0 at few in
    let kept : (p + 1) / 1024 ≡ p / 1024 → has_table k2 pgdir ((p + 1) / 1024) ≡ 1 = λ e.
      rw
        (
          e,
          sym at_p.0,
          store-slots k1 pgdir va t entry ys w.space w.table own (pdx va),
          present-test (k1.word pgdir (pdx va)) w.table.present,
        )
        refl in
    let (k', ran, m) =
      boot_map_loop-IsMapped n (p + 1) (u32 (pa + 4096)) perm k2 pgdir ys s2
        (next_spans p n (length ys) (has_table k2 pgdir ((p + 1) / 1024)) kept
          (omega (arith, count, credit-suc k pgdir p n, some_pages)))
        (omega arith) (next-IsAside p n aside) (omega arith) in
    let shift : u32 (va + 4096) ≡ u32 ((p + 1) * 4096) = omega arith in
    (
      k',
      rw (walked, shift) ran,
      record {
        left = m.left;
        space = m.space;
        enough = omega (
          arith,
          count,
          credit-suc k pgdir p n,
          next_left p n (length ys) (length m.left) (has_table k2 pgdir ((p + 1) / 1024)) kept
              m.enough,
        );
        size = m.size ∙ w.size;
        directory = m.directory ∙ w.directory;
        views = λ d i ne hi.
            m.views d i ne hi
            ∙ ap
                (λ (v : ℕ).
                  let q = d * 1024 + i in
                  if leb (p + 1) q && ltb q (p + 1 + n)
                  then region_entry (p + 1) (u32 (pa + 4096)) perm q
                  else v)
                (view-store k1 pgdir va t entry ys w.space w.table own d i ne)
            ∙ rw (at_p.0, at_p.1, w.views d i ne)
                (views_step d i p n pa perm (view k pgdir d i) hi small);
      },
    )

-- How many pages boot_map_region maps.
abbrev pub pages_of : ℕ → ℕ
pages_of size = (size + 4095) / 4096

-- boot_map_region from a page on, with as many free pages as the range has directory slots: in the address space the
-- pages of the range are mapped to the pages from `pa` on, with `perm | PTE_P`, and every other entry
-- stays. The range is rounded up to pages, ends inside the address space and does not meet the slot at
-- UVPT.
pub boot_map_region-IsMapped :
    (k : Kernel) (pgdir va size pa perm : ℕ) (xs : List ℕ)
    → IsSpace k pgdir xs
    → va % 4096 ≡ 0
    → va + size ≤ 2 ^ 32
    → 0 < size
    → IsAside (va / 4096) (pages_of size)
    → spans (va / 4096) (pages_of size) ≤ length xs
    → pa < 2 ^ 32
    → (k' : Kernel) × (boot_map_region pgdir va size pa perm k ≡ ok tt k')
      × IsMapped pgdir (va / 4096) (pages_of size) pa perm xs k k'
unfolding boot_map_region
boot_map_region-IsMapped k pgdir va size pa perm xs s aligned range some_bytes aside enough small =
    let pgs : (if size % 4096 == 0 then size / 4096 else size / 4096 + 1) ≡ pages_of size =
      ground arith in
    let at_va : u32 (va / 4096 * 4096) ≡ va = omega arith in
    let (k', ran, m) =
      boot_map_loop-IsMapped (pages_of size) (va / 4096) pa perm k pgdir xs s (more _ _ _ enough)
        (omega arith) aside small in
    (k', ap₂ (λ (n v : ℕ). boot_map_loop pgdir perm n v pa k) pgs (sym at_va) ∙ ran, m)

-- The pages of device memory that the range touches.
abbrev pub device_pages : ℕ → ℕ → ℕ
device_pages pa size = (pa + size + 4095) / 4096 - pa / 4096

-- mmio_map_region of a range that does not wrap and for which there is room: the next free part of the
-- region for devices is mapped, uncached, to every page that the range touches, its first address is
-- returned, and the next call will take what comes behind it.
pub mmio_map_region-IsMapped :
    (k : Kernel) (pa size : ℕ) (xs : List ℕ)
    → IsSpace k k.kern_pgdir xs
    → 0 < size
    → pa + size + 4096 ≤ 2 ^ 32
    → k.mmio_base % 4096 ≡ 0
    → mmiobase ≤ k.mmio_base
    → k.mmio_base + device_pages pa size * 4096 < mmiolim
    → spans (k.mmio_base / 4096) (device_pages pa size) ≤ length xs
    → (k' : Kernel) × (mmio_map_region pa size k
        ≡ ok k.mmio_base (record k' { mmio_base = k.mmio_base + device_pages pa size * 4096 }))
      × IsMapped k.kern_pgdir
          (k.mmio_base / 4096)
          (device_pages pa size)
          (pa / 4096 * 4096)
          (bit_or (bit_or pte_pcd pte_pwt) pte_w)
          xs
          k
          k'
unfolding mmio_map_region round_up round_down
mmio_map_region-IsMapped k pa size xs s some_bytes fits aligned low room enough =
    let n = device_pages pa size in
    let perm = bit_or (bit_or pte_pcd pte_pwt) pte_w in
    let count : pages_of (n * 4096) ≡ n = omega arith in
    let (k', ran, m) =
      boot_map_region-IsMapped k k.kern_pgdir k.mmio_base (n * 4096) (pa / 4096 * 4096) perm xs s
        aligned (omega arith) (omega arith) (inr (omega arith)) (rw count enough) (omega arith) in
    let first : pa - pa % 4096 ≡ pa / 4096 * 4096 = omega arith in
    let last : u32 (u32 (pa + size) + 4096 - 1) - u32 (u32 (pa + size) + 4096 - 1) % 4096
        ≡ (pa + size + 4095) / 4096 * 4096 =
      omega arith in
    let bytes : ((pa + size + 4095) / 4096 * 4096 + 2 ^ 32 - pa / 4096 * 4096) % 2 ^ 32 ≡ n * 4096 =
      omega arith in
    let whole : u32 (k.mmio_base + n * 4096) ≡ k.mmio_base + n * 4096 = omega arith in
    let below : leb mmiolim (k.mmio_base + n * 4096) ≡ false = ground arith in
    let back : (k.mmio_base + n * 4096 + 2 ^ 32 - n * 4096) % 2 ^ 32 ≡ k.mmio_base = omega arith in
    (
      k',
      rw (first, last, bytes, whole, below, ran, back) refl,
      subst
          (λ (c : ℕ). IsMapped k.kern_pgdir (k.mmio_base / 4096) c (pa / 4096 * 4096) perm xs k k')
          count m,
    )
