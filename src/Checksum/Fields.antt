-- ===== src/Checksum/Fields.antt =====
-- The little-endian fields of the structures of fs/smkfs/checksum.c: what a write of a field leaves
-- in the block, and what a read then gives.
use amit_x.Prelude.{
  ℕ, suc, ◌+◌, ◌/◌, ◌%◌, ◌^◌, ◌≤◌, ◌<◌, ◌≡◌, refl, sym, ◌∙◌, arith, List, [], ◌∷◌, length, get_or,
  set, ℕ_discrete, ◌⊎◌, inl, length-set, get_or-set_self, get_or-set_ne,
}
use amit_x.Checksum.{get16, put16, get32, put32}

-- Lists of the same length with the same entries are equal.
list_ext :
    (xs ys : List ℕ) → length xs ≡ length ys → ((i : ℕ) → get_or xs i 0 ≡ get_or ys i 0) → xs ≡ ys
list_ext [] [] e h = refl
list_ext [] (y ∷ ys) e h = absurd (omega arith)
list_ext (x ∷ xs) [] e h = absurd (omega arith)
list_ext (x ∷ xs) (y ∷ ys) e h = cong2 (h 0) (list_ext xs ys (omega arith) (λ i. h (suc i)))
  where
    cong2 : x ≡ y → xs ≡ ys → x ∷ xs ≡ y ∷ ys
    cong2 p q = rw (p, q)

pub length-put16 : (b : List ℕ) (at v : ℕ) → length (put16 b at v) ≡ length b
unfolding put16
length-put16 b at v = length-set _ _ _ ∙ length-set _ _ _

pub length-put32 : (b : List ℕ) (at v : ℕ) → length (put32 b at v) ≡ length b
unfolding put32
length-put32 b at v = length-set _ _ _ ∙ length-set _ _ _ ∙ length-set _ _ _ ∙ length-set _ _ _

-- What a write leaves alone.
pub get_or-put16 :
    (b : List ℕ) (at v i : ℕ) → (i < at) ⊎ (at + 2 ≤ i) → get_or (put16 b at v) i 0 ≡ get_or b i 0
unfolding put16
get_or-put16 b at v i h = rw (
  get_or-set_ne (set b at (v % 2 ^ 8)) (at + 1) i (v / 2 ^ 8 % 2 ^ 8) 0 (ground arith),
  get_or-set_ne b at i (v % 2 ^ 8) 0 (ground arith),
)

pub get_or-put32 :
    (b : List ℕ) (at v i : ℕ) → (i < at) ⊎ (at + 4 ≤ i) → get_or (put32 b at v) i 0 ≡ get_or b i 0
unfolding put32
get_or-put32 b at v i h =
    get_or-set_ne _ (at + 3) i _ 0 (ground arith)
    ∙ get_or-set_ne _ (at + 2) i _ 0 (ground arith)
    ∙ get_or-set_ne _ (at + 1) i _ 0 (ground arith)
    ∙ get_or-set_ne b at i _ 0 (ground arith)

-- The bytes that a write leaves, of a field that lies inside the block.
module _ (b : List ℕ) (at v : ℕ) where
  pub get_or-put16_low : at + 2 ≤ length b → get_or (put16 b at v) at 0 ≡ v % 2 ^ 8
  unfolding put16
  get_or-put16_low h =
      get_or-set_ne _ (at + 1) at _ 0 (omega arith) ∙ get_or-set_self b at _ 0 (omega arith)

  pub get_or-put16_high : at + 2 ≤ length b → get_or (put16 b at v) (at + 1) 0 ≡ v / 2 ^ 8 % 2 ^ 8
  unfolding put16
  get_or-put16_high h = get_or-set_self _ (at + 1) _ 0 (omega (arith, length-set b at (v % 2 ^ 8)))

  get_or-put32_first : at + 4 ≤ length b → get_or (put32 b at v) at 0 ≡ v % 2 ^ 8
  unfolding put32
  get_or-put32_first h =
      get_or-set_ne _ (at + 3) at _ 0 (omega arith)
      ∙ get_or-set_ne _ (at + 2) at _ 0 (omega arith)
      ∙ get_or-set_ne _ (at + 1) at _ 0 (omega arith)
      ∙ get_or-set_self b at _ 0 (omega arith)

  get_or-put32_second : at + 4 ≤ length b → get_or (put32 b at v) (at + 1) 0 ≡ v / 2 ^ 8 % 2 ^ 8
  unfolding put32
  get_or-put32_second h =
      get_or-set_ne _ (at + 3) (at + 1) _ 0 (omega arith)
      ∙ get_or-set_ne _ (at + 2) (at + 1) _ 0 (omega arith)
      ∙ get_or-set_self _ (at + 1) _ 0 (omega (arith, length-set b at (v % 2 ^ 8)))

  get_or-put32_third : at + 4 ≤ length b → get_or (put32 b at v) (at + 2) 0 ≡ v / 2 ^ 16 % 2 ^ 8
  unfolding put32
  get_or-put32_third h =
      let one = set b at (v % 2 ^ 8) in
      get_or-set_ne _ (at + 3) (at + 2) _ 0 (omega arith)
      ∙ get_or-set_self _ (at + 2) _ 0
          (omega (arith, length-set b at (v % 2 ^ 8), length-set one (at + 1) (v / 2 ^ 8 % 2 ^ 8)))

  get_or-put32_fourth : at + 4 ≤ length b → get_or (put32 b at v) (at + 3) 0 ≡ v / 2 ^ 24 % 2 ^ 8
  unfolding put32
  get_or-put32_fourth h =
      let one = set b at (v % 2 ^ 8) in
      let two = set one (at + 1) (v / 2 ^ 8 % 2 ^ 8) in
      get_or-set_self _ (at + 3) _ 0 (
        omega (
          arith,
          length-set b at (v % 2 ^ 8),
          length-set one (at + 1) (v / 2 ^ 8 % 2 ^ 8),
          length-set two (at + 2) (v / 2 ^ 16 % 2 ^ 8),
        ))

  pub get16-put16 : at + 2 ≤ length b → get16 (put16 b at v) at ≡ v % 2 ^ 16
  unfolding get16
  get16-put16 h = omega (arith, get_or-put16_low h, get_or-put16_high h)

  pub get32-put32 : at + 4 ≤ length b → get32 (put32 b at v) at ≡ v % 2 ^ 32
  unfolding get32
  get32-put32 h = omega (
    arith,
    get_or-put32_first h,
    get_or-put32_second h,
    get_or-put32_third h,
    get_or-put32_fourth h,
  )

pub get32_apart :
    (b : List ℕ) (at v from : ℕ)
    → (from + 4 ≤ at) ⊎ (at + 4 ≤ from)
    → get32 (put32 b at v) from ≡ get32 b from
unfolding get32
get32_apart b at v from h = rw (
  get_or-put32 b at v from (ground arith),
  get_or-put32 b at v (from + 1) (ground arith),
  get_or-put32 b at v (from + 2) (ground arith),
  get_or-put32 b at v (from + 3) (ground arith),
)

pub get16_apart :
    (b : List ℕ) (at v from : ℕ) → from + 2 ≤ at → get16 (put32 b at v) from ≡ get16 b from
unfolding get16
get16_apart b at v from h = rw (
  get_or-put32 b at v from (inl (omega arith)),
  get_or-put32 b at v (from + 1) (inl (omega arith)),
)

-- Clearing a field hides what was written there before.
pub put32_over :
    (b : List ℕ) (at v w : ℕ) → at + 4 ≤ length b → put32 (put32 b at v) at w ≡ put32 b at w
put32_over b at v w h =
    list_ext _ _ (length-put32 _ at w ∙ length-put32 b at v ∙ sym (length-put32 b at w)) entry
  where
    inside : at + 4 ≤ length (put32 b at v)
    inside = omega (arith, length-put32 b at v)

    entry : (i : ℕ) → get_or (put32 (put32 b at v) at w) i 0 ≡ get_or (put32 b at w) i 0
    entry i = elim (ℕ_discrete i at) [
      | yes e ↦
          rw e (get_or-put32_first (put32 b at v) at w inside ∙ sym (get_or-put32_first b at w h))
      | no n0 ↦ elim (ℕ_discrete i (at + 1)) [
        | yes e ↦
            rw e
              (get_or-put32_second (put32 b at v) at w inside ∙ sym (get_or-put32_second b at w h))
        | no n1 ↦ elim (ℕ_discrete i (at + 2)) [
          | yes e ↦
              rw e
                (get_or-put32_third (put32 b at v) at w inside ∙ sym (get_or-put32_third b at w h))
          | no n2 ↦ elim (ℕ_discrete i (at + 3)) [
            | yes e ↦ rw e (
                get_or-put32_fourth (put32 b at v) at w inside ∙ sym (get_or-put32_fourth b at w h))
            | no n3 ↦
                let out : (i < at) ⊎ (at + 4 ≤ i) = ground arith in
                get_or-put32 (put32 b at v) at w i out
                ∙ get_or-put32 b at v i out
                ∙ sym (get_or-put32 b at w i out)
          ]
        ]
      ]
    ]
