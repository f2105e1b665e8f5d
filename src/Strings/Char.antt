-- ===== src/Strings/Char.antt =====
-- lib/ctype.c. A character is an `int` by its bit pattern, so a negative one lies above all bounds.
use amit_x.Prelude.{ℕ, ◌+◌, ◌-◌, ◌≡◌, arith, Bool, ◌&&◌, ◌||◌, leb, ◌==◌, if◌then◌else◌}

unfoldable pub isdigit : ℕ → Bool
isdigit c = leb 48 c && leb c 57

unfoldable pub isxdigit : ℕ → Bool
unfolding isdigit
isxdigit c = isdigit c || (leb 97 c && leb c 102) || (leb 65 c && leb c 70)

unfoldable pub isspace : ℕ → Bool
isspace c = (c == 32) || (c == 10) || (c == 9) || (c == 13) || (c == 12) || (c == 11)

unfoldable pub isprint : ℕ → Bool
isprint c = leb 32 c && leb c 126

unfoldable pub toupper : ℕ → ℕ
toupper c = if leb 97 c && leb c 122 then c - 32 else c

unfoldable pub tolower : ℕ → ℕ
tolower c = if leb 65 c && leb c 90 then c + 32 else c

-- Characters fold alike to lower case exactly if they do so to upper case; each folding can be
-- done again without effect, undoes the other up to itself, and keeps digits, hexadecimal digits,
-- spaces and printed characters.
pub toupper-tolower :
    (c d : ℕ)
    → (tolower c ≡ tolower d → toupper c ≡ toupper d)
      × (toupper c ≡ toupper d → tolower c ≡ tolower d)
      × (toupper (tolower c) ≡ toupper c)
      × (tolower (toupper c) ≡ tolower c)
      × (isdigit (toupper c) ≡ isdigit c)
      × (isxdigit (toupper c) ≡ isxdigit c)
      × (isspace (toupper c) ≡ isspace c)
      × (isprint (toupper c) ≡ isprint c)
unfolding toupper tolower isdigit isxdigit isspace isprint
toupper-tolower c d = (
  ground arith,
  ground arith,
  ground arith,
  ground arith,
  ground arith,
  ground arith,
  ground arith,
  ground arith,
)
