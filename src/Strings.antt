-- ===== src/Strings.antt =====
-- lib/string.c and lib/ctype.c. The memory is a function from addresses to bytes; an `int` that is
-- taken as a character is its bit pattern. A function that reads up to the end of a string runs on
-- fuel and answers `none` without it; those that count down a length need none. No object wraps around
-- the end of the address space. The calls of `malloc` are a parameter.
pub mod Decimal
pub mod Char
pub mod Memory
pub mod Copy
pub mod Compare
pub mod Search
pub mod Numbers
pub mod Print
mod Tests
use amit_x.Prelude.{
  ℕ, zero, suc, ◌+◌, ◌-◌, ◌*◌, ◌/◌, ◌%◌, ◌^◌, Bool, true, false, not, ◌&&◌, ◌||◌, Option, none,
  some, ltb, leb, ◌==◌, if◌then◌else◌,
}

-- The bytes of the memory.
abbrev pub Bytes : Type 0
Bytes = ℕ → ℕ

unfoldable pub store : ℕ → ℕ → Bytes → Bytes
store a v m = λ b. if b == a then v else m b

-- An `int`.
pub data ℤ : Type 0 where
  pos : ℕ → ℤ
  negsuc : ℕ → ℤ

-- The difference of two bytes.
abbrev pub difference : ℕ → ℕ → ℤ
difference x y = if leb y x then pos (x - y) else negsuc (y - x - 1)

unfoldable pub memset : ℕ → ℕ → ℕ → Bytes → Bytes
unfolding store
memset dest val zero m = m
memset dest val (suc len) m = memset (dest + 1) val len (store dest (val % 256) m)

unfoldable pub memcpy : ℕ → ℕ → ℕ → Bytes → Bytes
unfolding store
memcpy dest src zero m = m
memcpy dest src (suc len) m = memcpy (dest + 1) (src + 1) len (store dest (m src) m)

-- The two loops of `memmove`: `n` bytes from index `i` on, and the `n` first ones from the last.
unfoldable pub move_up : ℕ → ℕ → ℕ → ℕ → Bytes → Bytes
unfolding store
move_up zero i dest src m = m
move_up (suc n) i dest src m = move_up n (i + 1) dest src (store (dest + i) (m (src + i)) m)

unfoldable pub move_down : ℕ → ℕ → ℕ → Bytes → Bytes
unfolding store
move_down zero dest src m = m
move_down (suc i) dest src m = move_down i dest src (store (dest + i) (m (src + i)) m)

unfoldable pub memmove : ℕ → ℕ → ℕ → Bytes → Bytes
unfolding move_up move_down
memmove dest src n m =
    if dest == src
    then m
    else if ltb dest src
    then move_up n 0 dest src m
    else move_down n dest src m

-- The loop of `memcmp`, with `n` bytes left from index `i` on.
unfoldable pub memcmp_from : ℕ → ℕ → ℕ → ℕ → Bytes → ℤ
memcmp_from zero i a b m = pos 0
memcmp_from (suc n) i a b m =
    let rest = memcmp_from n (i + 1) a b m in
    if m (a + i) == m (b + i) then rest else difference (m (a + i)) (m (b + i))

unfoldable pub memcmp : ℕ → ℕ → ℕ → Bytes → ℤ
unfolding memcmp_from
memcmp s1 s2 n m = memcmp_from n 0 s1 s2 m

unfoldable pub memchr : ℕ → ℕ → ℕ → Bytes → Option ℕ
memchr src c zero m = none
memchr src c (suc length) m =
    let rest = memchr (src + 1) c length m in if m src == c then some src else rest

unfoldable pub strlen_from : ℕ → ℕ → ℕ → Bytes → Option ℕ
strlen_from zero len str m = none
strlen_from (suc fuel) len str m =
    let rest = strlen_from fuel (len + 1) str m in if m (str + len) == 0 then some len else rest

unfoldable pub strlen : ℕ → ℕ → Bytes → Option ℕ
unfolding strlen_from
strlen fuel str m = strlen_from fuel 0 str m

-- The loop of `strnlen`, with `n` indices left below `maxlen`.
unfoldable pub strnlen_from : ℕ → ℕ → ℕ → Bytes → ℕ
strnlen_from zero len s m = len
strnlen_from (suc n) len s m =
    let rest = strnlen_from n (len + 1) s m in if m (s + len) == 0 then len else rest

unfoldable pub strnlen : ℕ → ℕ → Bytes → ℕ
unfolding strnlen_from
strnlen s maxlen m = strnlen_from maxlen 0 s m

unfoldable pub strcmp : ℕ → ℕ → ℕ → Bytes → Option ℤ
strcmp zero s1 s2 m = none
strcmp (suc fuel) s1 s2 m =
    let rest = strcmp fuel (s1 + 1) (s2 + 1) m in
    if not (m s1 == 0) && (m s1 == m s2) then rest else some (difference (m s1) (m s2))

unfoldable pub strncmp : ℕ → ℕ → ℕ → Bytes → ℤ
strncmp s1 s2 zero m = pos 0
strncmp s1 s2 (suc n) m =
    let rest = strncmp (s1 + 1) (s2 + 1) n m in
    if not (m s1 == 0) && (m s1 == m s2) then rest else difference (m s1) (m s2)

unfoldable pub strcpy : ℕ → ℕ → ℕ → Bytes → Option Bytes
unfolding store
strcpy zero dest src m = none
strcpy (suc fuel) dest src m =
    let m' = store dest (m src) m in
    let rest = strcpy fuel (dest + 1) (src + 1) m' in if m src == 0 then some m' else rest

-- The end of a string, where `strcat` and `strncat` start to write.
unfoldable pub string_end : ℕ → ℕ → Bytes → Option ℕ
string_end zero dest m = none
string_end (suc fuel) dest m =
    let rest = string_end fuel (dest + 1) m in if m dest == 0 then some dest else rest

-- The second loop of `strcat`, and the byte 0 after it.
unfoldable pub append_string : ℕ → ℕ → ℕ → Bytes → Option Bytes
unfolding store
append_string zero dest src m = none
append_string (suc fuel) dest src m =
    let rest = append_string fuel (dest + 1) (src + 1) (store dest (m src) m) in
    if m src == 0 then some (store dest 0 m) else rest

unfoldable pub strcat : ℕ → ℕ → ℕ → Bytes → Option Bytes
unfolding string_end append_string
strcat fuel dest src m = elim (string_end fuel dest m) [
  | none ↦ none
  | some end ↦ append_string fuel end src m
]

unfoldable pub append_up_to : ℕ → ℕ → ℕ → Bytes → Bytes
unfolding store
append_up_to zero dest src m = store dest 0 m
append_up_to (suc n) dest src m =
    let rest = append_up_to n (dest + 1) (src + 1) (store dest (m src) m) in
    if m src == 0 then store dest 0 m else rest

unfoldable pub strncat : ℕ → ℕ → ℕ → ℕ → Bytes → Option Bytes
unfolding string_end append_up_to
strncat fuel dest src n m = elim (string_end fuel dest m) [
  | none ↦ none
  | some end ↦ some (append_up_to n end src m)
]

-- The second loop of `strncpy`.
unfoldable pub zero_run : ℕ → ℕ → Bytes → Bytes
unfolding store
zero_run zero dest m = m
zero_run (suc n) dest m = zero_run n (dest + 1) (store dest 0 m)

unfoldable pub strncpy : ℕ → ℕ → ℕ → Bytes → Bytes
unfolding store zero_run
strncpy dest src zero m = m
strncpy dest src (suc n) m =
    let rest = strncpy (dest + 1) (src + 1) n (store dest (m src) m) in
    if m src == 0 then zero_run (suc n) dest m else rest

-- The inner `none` is NULL.
unfoldable pub strchr : ℕ → ℕ → ℕ → Bytes → Option (Option ℕ)
strchr zero str c m = none
strchr (suc fuel) str c m =
    let rest = strchr fuel (str + 1) c m in
    if m str == 0 then some none else if m str == c % 256 then some (some str) else rest

unfoldable pub strchrnul : ℕ → ℕ → ℕ → Bytes → Option ℕ
strchrnul zero s c m = none
strchrnul (suc fuel) s c m =
    let rest = strchrnul fuel (s + 1) c m in
    if m s == 0 then some s else if m s == c % 256 then some s else rest

-- The loop of `strrchr`.
unfoldable pub strrchr_from : ℕ → ℕ → ℕ → Option ℕ → Bytes → Option (Option ℕ)
strrchr_from zero s c last m = none
strrchr_from (suc fuel) s c last m =
    let rest = strrchr_from fuel (s + 1) c (if m s == c % 256 then some s else last) m in
    if m s == 0 then some last else rest

unfoldable pub strrchr : ℕ → ℕ → ℕ → Bytes → Option (Option ℕ)
unfolding strrchr_from
strrchr fuel s c m = strrchr_from fuel s c none m
