-- ===== src/Str.antt =====
-- lib/string.c: byte strings in memory. A pointer is an address, a memory gives each address a byte;
-- the objects that are named do not wrap around the end of the address space. A loop that ends only
-- at the byte 0 runs on fuel and gives `none` where the fuel is too little. An `int` result is its
-- 32-bit pattern.
pub mod Move
pub mod Strings
use pmake_os.Base.{
  ℕ, zero, suc, ◌+◌, ◌-◌, ◌*◌, ◌/◌, ◌%◌, ◌^◌, Bool, true, false, ◌&&◌, ◌||◌, not, Option, none,
  some, bit_or, ltb, leb, ◌==◌, if◌then◌else◌, update,
}

abbrev pub Memory : Type 0
Memory = ℕ → ℕ

-- The difference of two bytes as an `int`.
abbrev pub byte_diff : ℕ → ℕ → ℕ
byte_diff a b = (a + 2 ^ 32 - b) % 2 ^ 32

unfoldable pub strlen : ℕ → Memory → ℕ → Option ℕ
strlen zero m s = none
strlen (suc fuel) m s =
    let rest = strlen fuel m (s + 1) in
    if m s == 0 then some 0 else elim rest [ none ↦ none | some n ↦ some (n + 1) ]

unfoldable pub strnlen : Memory → ℕ → ℕ → ℕ
strnlen m s zero = 0
strnlen m s (suc size) = let rest = strnlen m (s + 1) size in if m s == 0 then 0 else rest + 1

-- The memory after the call; `dst` itself is returned.
unfoldable pub strcpy : ℕ → Memory → ℕ → ℕ → Option Memory
strcpy zero m dst src = none
strcpy (suc fuel) m dst src =
    let m' = update m dst (m src) in
    let rest = strcpy fuel m' (dst + 1) (src + 1) in if m src == 0 then some m' else rest

unfoldable pub strcat : ℕ → Memory → ℕ → ℕ → Option Memory
strcat fuel m dst src = elim (strlen fuel m dst) [
  | none ↦ none
  | some len ↦ strcpy fuel m (dst + len) src
]

unfoldable pub strncpy : Memory → ℕ → ℕ → ℕ → Memory
strncpy m dst src zero = m
strncpy m dst src (suc size) =
    strncpy (update m dst (m src)) (dst + 1) (if m src == 0 then src else src + 1) size

-- The loop of strlcpy with `size` bytes left before the last one: the memory, and the address at
-- which the byte 0 is written.
unfoldable pub strlcpy_loop : Memory → ℕ → ℕ → ℕ → Memory × ℕ
strlcpy_loop m dst src zero = (update m dst 0, dst)
strlcpy_loop m dst src (suc size) =
    let rest = strlcpy_loop (update m dst (m src)) (dst + 1) (src + 1) size in
    if m src == 0 then (update m dst 0, dst) else rest

-- The memory, and the length that is returned.
unfoldable pub strlcpy : Memory → ℕ → ℕ → ℕ → Memory × ℕ
strlcpy m dst src zero = (m, 0)
strlcpy m dst src (suc size) = let r = strlcpy_loop m dst src size in (r.0, r.1 - dst)

unfoldable pub strcmp : ℕ → Memory → ℕ → ℕ → Option ℕ
strcmp zero m p q = none
strcmp (suc fuel) m p q =
    let rest = strcmp fuel m (p + 1) (q + 1) in
    if not (m p == 0) && m p == m q then rest else some (byte_diff (m p) (m q))

unfoldable pub strncmp : Memory → ℕ → ℕ → ℕ → ℕ
strncmp m p q zero = 0
strncmp m p q (suc n) =
    let rest = strncmp m (p + 1) (q + 1) n in
    if not (m p == 0) && m p == m q then rest else byte_diff (m p) (m q)

-- NULL is 0.
unfoldable pub strchr : ℕ → Memory → ℕ → ℕ → Option ℕ
strchr zero m s c = none
strchr (suc fuel) m s c =
    let rest = strchr fuel m (s + 1) c in
    if m s == 0 then some 0 else if m s == c then some s else rest

unfoldable pub strfind : ℕ → Memory → ℕ → ℕ → Option ℕ
strfind zero m s c = none
strfind (suc fuel) m s c =
    let rest = strfind fuel m (s + 1) c in if m s == 0 || m s == c then some s else rest

-- `rep stosb` and `rep stosl`: n bytes, or n words, from `d` upwards; the lowest byte of a word
-- comes first.
unfoldable pub rep_stosb : ℕ → ℕ → ℕ → Memory → Memory
rep_stosb zero d eax m = m
rep_stosb (suc n) d eax m = rep_stosb n (d + 1) eax (update m d (eax % 256))

unfoldable pub store_word : ℕ → ℕ → Memory → Memory
store_word d eax m =
    update
      (update (update (update m d (eax % 256)) (d + 1) (eax / 256 % 256)) (d + 2)
        (eax / 65536 % 256))
      (d + 3) (eax / 16777216 % 256)

unfoldable pub rep_stosl : ℕ → ℕ → ℕ → Memory → Memory
rep_stosl zero d eax m = m
rep_stosl (suc n) d eax m = rep_stosl n (d + 4) eax (store_word d eax m)

-- The byte `c & 0xFF` four times.
unfoldable pub repeat_byte : ℕ → ℕ
repeat_byte c = let b = c % 256 in bit_or (bit_or (bit_or (b * 2 ^ 24) (b * 2 ^ 16)) (b * 2 ^ 8)) b

unfoldable pub memset : ℕ → ℕ → ℕ → Memory → Memory
memset v c n m =
    if n == 0
    then m
    else if v % 4 == 0 && n % 4 == 0
    then rep_stosl (n / 4) v (repeat_byte c) m
    else rep_stosb n v c m

-- `rep movsb` and `rep movsl` upwards from `d` and `s`.
unfoldable pub rep_movsb : ℕ → ℕ → ℕ → Memory → Memory
rep_movsb zero d s m = m
rep_movsb (suc n) d s m = rep_movsb n (d + 1) (s + 1) (update m d (m s))

-- One word: its four bytes are read before one is written.
unfoldable pub move_word : ℕ → ℕ → Memory → Memory
move_word d s m =
    update (update (update (update m d (m s)) (d + 1) (m (s + 1))) (d + 2) (m (s + 2))) (d + 3)
      (m (s + 3))

unfoldable pub rep_movsl : ℕ → ℕ → ℕ → Memory → Memory
rep_movsl zero d s m = m
rep_movsl (suc n) d s m = rep_movsl n (d + 4) (s + 4) (move_word d s m)

-- The same downwards, under `std`: n bytes, or n words, that end before `d` and `s`.
unfoldable pub rep_movsb_down : ℕ → ℕ → ℕ → Memory → Memory
rep_movsb_down zero d s m = m
rep_movsb_down (suc n) d s m = rep_movsb_down n (d - 1) (s - 1) (update m (d - 1) (m (s - 1)))

unfoldable pub rep_movsl_down : ℕ → ℕ → ℕ → Memory → Memory
rep_movsl_down zero d s m = m
rep_movsl_down (suc n) d s m = rep_movsl_down n (d - 4) (s - 4) (move_word (d - 4) (s - 4) m)

unfoldable pub memmove : ℕ → ℕ → ℕ → Memory → Memory
memmove d s n m =
    let words = s % 4 == 0 && (d % 4 == 0 && n % 4 == 0) in
    let down = (s + n) % 4 == 0 && ((d + n) % 4 == 0 && n % 4 == 0) in
    if ltb s d && ltb d (s + n)
    then (if down
        then rep_movsl_down (n / 4) (d + n) (s + n) m
        else rep_movsb_down n (d + n) (s + n) m)
    else if words
    then rep_movsl (n / 4) d s m
    else rep_movsb n d s m

unfoldable pub memcmp : Memory → ℕ → ℕ → ℕ → ℕ
memcmp m s1 s2 zero = 0
memcmp m s1 s2 (suc n) =
    let rest = memcmp m (s1 + 1) (s2 + 1) n in
    if m s1 == m s2 then rest else byte_diff (m s1) (m s2)

unfoldable pub memfind : Memory → ℕ → ℕ → ℕ → ℕ
memfind m s c zero = s
memfind m s c (suc n) = let rest = memfind m (s + 1) c n in if m s == c % 256 then s else rest
