-- ===== src/Strings/Tests.antt =====
-- A memory with a few strings, and the theorems at it.
use amit_x.Prelude.{
  ℕ, ◌+◌, ◌%◌, ◌≤◌, ◌≡◌, ◌≢◌, min, refl, arith, List, [], ◌∷◌, ◌++◌, length, take, get_or, Option,
  some, ◌⊎◌, inr,
}
use amit_x.Strings.{
  Bytes, ℤ, negsuc, memset, memcpy, memmove, memcmp, memchr, strlen, strnlen, strcmp, strncmp,
  strcpy, strcat, strncat, strncpy, strchr, strchrnul, strrchr,
}
use amit_x.Strings.Memory.{Moved, Filled, memmove-memcpy}
use amit_x.Strings.Copy.{StringAt, Written, Padded, strcpy-strcat}
use amit_x.Strings.Search.{First, Last, or_end, strchr-strrchr}
use amit_x.Strings.Compare.{Compares, bytes_at, strcmp-memcmp}

-- The string "abab" at 2, and "cd" at 10.
abbrev memory : Bytes
memory = get_or' (0 ∷ 0 ∷ 97 ∷ 98 ∷ 97 ∷ 98 ∷ 0 ∷ 7 ∷ 7 ∷ 7 ∷ 99 ∷ 100 ∷ 0 ∷ [])
  where
    get_or' : List ℕ → ℕ → ℕ
    get_or' xs a = get_or xs a 0

abbrev abab : List ℕ
abab = 97 ∷ 98 ∷ 97 ∷ 98 ∷ []

abbrev cd : List ℕ
cd = 99 ∷ 100 ∷ []

abab_at : StringAt memory 2 abab
abab_at = (refl, ne, (refl, ne', (refl, ne, (refl, ne', refl))))
  where
    ne : ◌≢◌ {A = ℕ} 97 0
    ne e = omega arith

    ne' : ◌≢◌ {A = ℕ} 98 0
    ne' e = omega arith

cd_at : StringAt memory 10 cd
cd_at = (refl, ne, (refl, ne', refl))
  where
    ne : ◌≢◌ {A = ℕ} 99 0
    ne e = omega arith

    ne' : ◌≢◌ {A = ℕ} 100 0
    ne' e = omega arith

memmove_runs : memmove 3 2 4 memory 6 ≡ 98
unfolding memmove
memmove_runs = refl

strchr_runs : strchr 9 2 98 memory ≡ some (some 3)
unfolding strchr
strchr_runs = refl

strrchr_runs : strrchr 9 2 98 memory ≡ some (some 5)
unfolding strrchr
strrchr_runs = refl

strcmp_runs : strcmp 9 2 10 memory ≡ some (negsuc 1)
unfolding strcmp
strcmp_runs = refl

memmove-memcpy_example :
    Moved 3 2 4 memory (memmove 3 2 4 memory)
    × ((3 ≤ 2) ⊎ (2 + 4 ≤ 3) → Moved 3 2 4 memory (memcpy 3 2 4 memory))
    × Filled 3 (300 % 256) 4 memory (memset 3 300 4 memory)
memmove-memcpy_example = memmove-memcpy 3 2 4 300 memory

strcpy-strcat_example :
    ((m' : Bytes) × (strcpy 9 10 2 memory ≡ some m') × Written 10 abab memory m')
    × ((m' : Bytes) × (strcat 9 10 2 memory ≡ some m') × Written 10 (cd ++ abab) memory m')
    × ((m' : Bytes) × (strncat 9 10 2 3 memory ≡ some m')
        × Written 10 (cd ++ take 3 abab) memory m')
    × Padded 10 3 abab memory (strncpy 10 2 3 memory)
strcpy-strcat_example =
    strcpy-strcat 9 10 2 3 abab cd memory abab_at cd_at (omega arith) (omega arith)
      (inr (omega arith))

strchr-strrchr_example :
    (strlen 9 2 memory ≡ some (length abab))
    × (strnlen 2 3 memory ≡ min 3 (length abab))
    × ((r : Option ℕ) × (strchr 9 2 98 memory ≡ some r)
        × (strchrnul 9 2 98 memory ≡ some (or_end r (2 + length abab)))
        × First memory (98 % 256) 2 (length abab) r)
    × ((r : Option ℕ) × (strrchr 9 2 98 memory ≡ some r) × Last memory (98 % 256) 2 (length abab) r)
    × First memory 98 2 3 (memchr 2 98 3 memory)
strchr-strrchr_example = strchr-strrchr 9 2 98 3 abab memory abab_at (omega arith)

strcmp-memcmp_example :
    ((r : ℤ) × (strcmp 9 2 10 memory ≡ some r) × Compares r abab cd)
    × Compares (strncmp 2 10 3 memory) (take 3 abab) (take 3 cd)
    × Compares (memcmp 2 10 3 memory) (bytes_at memory 2 3) (bytes_at memory 10 3)
strcmp-memcmp_example = strcmp-memcmp 9 2 10 3 abab cd memory abab_at cd_at (omega arith)
