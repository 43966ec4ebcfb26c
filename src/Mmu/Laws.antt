-- ===== src/Mmu/Laws.antt =====
-- The address macros are inverse to one another, and rounding is to the nearest page.
use pmake_os.Base.{ℕ, ◌+◌, ◌-◌, ◌*◌, ◌/◌, ◌%◌, ◌^◌, ◌≤◌, ◌<◌, ◌≡◌, true, false, arith}
use pmake_os.Base.Bits.{bit_or-disjoint, bit_and-one}
use pmake_os.Mmu.{pg_size, pdx, ptx, pg_off, pg_addr, pte_p, test, round_down, round_up}

-- The three parts of an address do not overlap, so they are added up.
pg_addr-sum :
    (d t o : ℕ) → d < 1024 → t < 1024 → o < 4096 → pg_addr d t o ≡ d * 2 ^ 22 + t * 2 ^ 12 + o
unfolding pg_addr
pg_addr-sum d t o hd ht ho =
    let high : d * 2 ^ 22 % 2 ^ 32 ≡ d * 2 ^ 22 = omega arith in
    let middle : t * 2 ^ 12 % 2 ^ 32 ≡ t * 2 ^ 12 = omega arith in
    let both : d * 2 ^ 22 + t * 2 ^ 12 ≡ (d * 2 ^ 10 + t) * 2 ^ 12 = omega arith in
    rw (high, middle, bit_or-disjoint 22 d (t * 2 ^ 12) (omega arith), both)
      (bit_or-disjoint 12 (d * 2 ^ 10 + t) o ho)

-- PGADDR(PDX(la), PTX(la), PGOFF(la)) is la, for each 32-bit address.
pub pg_addr_parts : (la : ℕ) → la < 2 ^ 32 → pg_addr (pdx la) (ptx la) (pg_off la) ≡ la
unfolding pdx ptx pg_off
pg_addr_parts la h =
    omega (arith, pg_addr-sum (la / 2 ^ 22 % 1024) (la / 2 ^ 12 % 1024) (la % 4096))

-- An index pair below 1024 and an offset below a page are the parts of the address they make.
pub parts-pg_addr :
    (d t o : ℕ)
    → d < 1024
    → t < 1024
    → o < 4096
    → (pdx (pg_addr d t o) ≡ d) × (ptx (pg_addr d t o) ≡ t) × (pg_off (pg_addr d t o) ≡ o)
unfolding pdx ptx pg_off
parts-pg_addr d t o hd ht ho = rw (pg_addr-sum d t o hd ht ho) (omega arith)

pub round_down_lem :
    (a : ℕ)
    → (round_down a pg_size ≤ a)
      × (a < round_down a pg_size + pg_size)
      × (round_down a pg_size % pg_size ≡ 0)
unfolding round_down
round_down_lem a = omega arith

-- ROUNDUP gives the least multiple of a page at or above `a`, where the sum does not wrap.
pub round_up_lem :
    (a : ℕ)
    → a + pg_size - 1 < 2 ^ 32
    → (a ≤ round_up a pg_size)
      × (round_up a pg_size < a + pg_size)
      × (round_up a pg_size % pg_size ≡ 0)
unfolding round_up round_down
round_up_lem a h = omega arith

pub test-present : (w : ℕ) → test w pte_p ≡ true → w % 2 ≡ 1
unfolding test
test-present w h = ground (arith, bit_and-one w)

pub test-absent : (w : ℕ) → test w pte_p ≡ false → w % 2 ≡ 0
unfolding test
test-absent w h = ground (arith, bit_and-one w)

pub present-test : (w : ℕ) → w % 2 ≡ 1 → test w pte_p ≡ true
unfolding test
present-test w h = ground (arith, bit_and-one w)

pub absent-test : (w : ℕ) → w % 2 ≡ 0 → test w pte_p ≡ false
unfolding test
absent-test w h = ground (arith, bit_and-one w)

pub present_absent : (w : ℕ) → test w pte_p ≡ true → test w pte_p ≡ false → ⊥
present_absent w p q = ground (arith, p, q)
