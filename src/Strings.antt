-- ===== src/Strings.antt =====
-- Strings and memory of libs/string.c, and the x86 forms of libs/x86.h that the kernel is built with.
-- A pointer is an address, and an object does not wrap round the end of the address space. A loop that
-- ends at a NUL runs on fuel.
pub mod Memory
pub mod Copy
pub mod Overlap
pub mod Order
pub mod Tests
use Prim.Native.Nat.{compare, Ordering}
use os_exercises.Base.{
  ℕ, zero, suc, ◌+◌, ◌-◌, ◌*◌, ◌/◌, ◌%◌, Bool, true, false, ◌&&◌, not, Option, none, some, ltb, leb,
  ◌==◌, if◌then◌else◌,
}

-- The bytes of memory by their addresses.
abbrev pub Mem : Type 0
Mem = ℕ → ℕ

-- *a = v
unfoldable pub write : ℕ → ℕ → Mem → Mem
write a v m x = if x == a then v else m x

-- An `int` that a comparison returns.
pub data ℤ : Type 0 where
  pos negsuc : ℕ → ℤ

unfoldable pub difference : ℕ → ℕ → ℤ
difference a b = if ltb a b then negsuc (b - a - 1) else pos (a - b)

unfoldable pub strlen_loop : ℕ → Mem → ℕ → ℕ → Option ℕ
strlen_loop zero m s cnt = none
strlen_loop (suc fuel) m s cnt = elim (m s == 0) [
  | true ↦ some cnt
  | false ↦ strlen_loop fuel m (s + 1) (cnt + 1)
]

unfoldable pub strlen : ℕ → Mem → ℕ → Option ℕ
strlen fuel m s = strlen_loop fuel m s 0

-- The count of rounds left is `len - cnt`.
unfoldable pub strnlen_loop : ℕ → Mem → ℕ → ℕ → ℕ
strnlen_loop zero m s cnt = cnt
strnlen_loop (suc left) m s cnt =
    let rest = strnlen_loop left m (s + 1) (cnt + 1) in if m s == 0 then cnt else rest

unfoldable pub strnlen : Mem → ℕ → ℕ → ℕ
strnlen m s len = strnlen_loop len m s 0

unfoldable pub strcpy : ℕ → ℕ → ℕ → Mem → Option Mem
strcpy zero dst src m = none
strcpy (suc fuel) dst src m = elim (m src == 0) [
  | true ↦ some (write dst (m src) m)
  | false ↦ strcpy fuel (dst + 1) (src + 1) (write dst (m src) m)
]

unfoldable pub strcat : ℕ → ℕ → ℕ → Mem → Option Mem
strcat fuel dst src m = elim (strlen fuel m dst) [
  | none ↦ none
  | some len ↦ strcpy fuel (dst + len) src m
]

unfoldable pub strncpy : ℕ → ℕ → ℕ → Mem → Mem
strncpy dst src zero m = m
strncpy dst src (suc len) m =
    strncpy (dst + 1) (if m src == 0 then src else src + 1) len (write dst (m src) m)

unfoldable pub strcmp : ℕ → Mem → ℕ → ℕ → Option ℤ
strcmp zero m s1 s2 = none
strcmp (suc fuel) m s1 s2 = elim (not (m s1 == 0) && (m s1 == m s2)) [
  | true ↦ strcmp fuel m (s1 + 1) (s2 + 1)
  | false ↦ some (difference (m s1) (m s2))
]

unfoldable pub strncmp : Mem → ℕ → ℕ → ℕ → ℤ
strncmp m s1 s2 zero = pos 0
strncmp m s1 s2 (suc n) =
    let rest = strncmp m (s1 + 1) (s2 + 1) n in
    if not (m s1 == 0) && (m s1 == m s2) then rest else difference (m s1) (m s2)

-- `none` inside is NULL.
unfoldable pub strchr : ℕ → Mem → ℕ → ℕ → Option (Option ℕ)
strchr zero m s c = none
strchr (suc fuel) m s c = elim (m s == 0) [
  | true ↦ some none
  | false ↦ elim (m s == c) [ true ↦ some (some s) | false ↦ strchr fuel m (s + 1) c ]
]

unfoldable pub strfind : ℕ → Mem → ℕ → ℕ → Option ℕ
strfind zero m s c = none
strfind (suc fuel) m s c = elim (m s == 0) [
  | true ↦ some s
  | false ↦ elim (m s == c) [ true ↦ some s | false ↦ strfind fuel m (s + 1) c ]
]

unfoldable pub memset : ℕ → ℕ → ℕ → Mem → Mem
memset s c zero m = m
memset s c (suc n) m = memset (s + 1) c n (write s c m)

-- The loop of `memcpy`, and the one of `memmove` that goes up.
unfoldable pub copy_up : ℕ → ℕ → ℕ → Mem → Mem
copy_up d s zero m = m
copy_up d s (suc n) m = copy_up (d + 1) (s + 1) n (write d (m s) m)

-- The loop that goes down, from the two ends.
unfoldable pub copy_down : ℕ → ℕ → ℕ → Mem → Mem
copy_down d s zero m = m
copy_down d s (suc n) m = copy_down (d - 1) (s - 1) n (write (d - 1) (m (s - 1)) m)

unfoldable pub memcpy : ℕ → ℕ → ℕ → Mem → Mem
memcpy dst src n m = copy_up dst src n m

unfoldable pub memmove : ℕ → ℕ → ℕ → Mem → Mem
memmove dst src n m =
    if ltb src dst && ltb dst (src + n)
    then copy_down (dst + n) (src + n) n m
    else copy_up dst src n m

unfoldable pub memcmp : Mem → ℕ → ℕ → ℕ → ℤ
memcmp m v1 v2 zero = pos 0
memcmp m v1 v2 (suc n) =
    let rest = memcmp m (v1 + 1) (v2 + 1) n in
    if m v1 == m v2 then rest else difference (m v1) (m v2)

-- One `movsl`: the four bytes are read before the first is written.
unfoldable pub move_word : ℕ → ℕ → Mem → Mem
move_word d s m =
    write (d + 3) (m (s + 3))
      (write (d + 2) (m (s + 2)) (write (d + 1) (m (s + 1)) (write d (m s) m)))

-- rep movsl
unfoldable pub words_up : ℕ → ℕ → ℕ → Mem → Mem
words_up d s zero m = m
words_up d s (suc n) m = words_up (d + 4) (s + 4) n (move_word d s m)

-- `rep movsl` on n / 4 words, then `rep movsb` on the other n % 4 bytes.
unfoldable pub x86_memcpy : ℕ → ℕ → ℕ → Mem → Mem
x86_memcpy dst src n m =
    copy_up (dst + 4 * (n / 4)) (src + 4 * (n / 4)) (n % 4) (words_up dst src (n / 4) m)

-- `std; rep movsb` from the last bytes on: the ends are one further than the addresses it starts at.
unfoldable pub x86_memmove : ℕ → ℕ → ℕ → Mem → Mem
x86_memmove dst src n m =
    if ltb dst src then x86_memcpy dst src n m else copy_down (dst + n) (src + n) n m

-- `sbbl` gives -1 with the carry of `scasb` set, and `orb $1` makes 0 a 1.
unfoldable pub x86_strcmp : ℕ → Mem → ℕ → ℕ → Option ℤ
x86_strcmp zero m s1 s2 = none
x86_strcmp (suc fuel) m s1 s2 = elim (m s1 == m s2) [
  | false ↦ some (if ltb (m s1) (m s2) then negsuc 0 else pos 1)
  | true ↦ elim (m s1 == 0) [ true ↦ some (pos 0) | false ↦ x86_strcmp fuel m (s1 + 1) (s2 + 1) ]
]
