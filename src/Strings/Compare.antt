-- ===== src/Strings/Compare.antt =====
-- `strcmp`, `strncmp` and `memcmp` of lib/string.c against the order of the dictionary.
use amit_x.Prelude.{
  ℕ, zero, suc, ◌+◌, ◌-◌, ◌<◌, ◌≡◌, ◌≢◌, ◌↔◌, refl, ap, sym, subst, arith, true, false, List, [],
  ◌∷◌, length, take, some, leb, ◌==◌, Bool-cases, ◌⊎◌, inl, inr,
}
use amit_x.Strings.{Bytes, ℤ, pos, negsuc, difference, memcmp_from, memcmp, strcmp, strncmp}
use amit_x.Strings.Copy.{StringAt}

-- The order of the dictionary.
abbrev pub Less : List ℕ → List ℕ → Type 0
Less [] [] = ⊥
Less [] (y ∷ ys) = Unit {0}
Less (x ∷ xs) [] = ⊥
Less (x ∷ xs) (y ∷ ys) = (x < y) ⊎ ((x ≡ y) × Less xs ys)

abbrev pub IsNegative : ℤ → Type 0
IsNegative (pos n) = ⊥
IsNegative (negsuc n) = Unit {0}

-- A result that tells how two lists compare.
pub record Compares (r : ℤ) (xs ys : List ℕ) : Type 0 where
  pub equal : (r ≡ pos 0) ↔ (xs ≡ ys)
  pub less : IsNegative r ↔ Less xs ys

-- The `n` bytes at `a`.
abbrev pub bytes_at : Bytes → ℕ → ℕ → List ℕ
bytes_at m a zero = []
bytes_at m a (suc n) = m a ∷ bytes_at m (a + 1) n

tail_of : List ℕ → List ℕ
tail_of [] = []
tail_of (x ∷ xs) = xs

head_of : List ℕ → ℕ
head_of [] = 0
head_of (x ∷ xs) = x

Compares-nil : Compares (pos 0) [] []
Compares-nil = record { equal = (λ h. refl, λ h. refl); less = (λ h. h, λ h. h) }

Compares-next :
    (r : ℤ) (x y : ℕ) (xs ys : List ℕ) → x ≡ y → Compares r xs ys → Compares r (x ∷ xs) (y ∷ ys)
unfolding tail_of
Compares-next r x y xs ys e c = record {
  equal = (λ h. let t = c.equal.0 h in cc, λ h. c.equal.1 (ap tail_of h));
  less = (
    λ h. inr (e, c.less.0 h),
    λ h. elim h [ inl l ↦ absurd (omega arith) | inr (e', l) ↦ c.less.1 l ],
  );
}

pos_inj : {a b : ℕ} → pos a ≡ pos b → a ≡ b
pos_inj h = cc

negsuc_ne_pos : {a b : ℕ} → negsuc a ≢ pos b
negsuc_ne_pos h = cc

nil_ne_cons : {y : ℕ} {ys : List ℕ} → ◌≢◌ {A = List ℕ} [] (y ∷ ys)
nil_ne_cons h = cc

cons_ne_nil : {y : ℕ} {ys : List ℕ} → ◌≢◌ {A = List ℕ} (y ∷ ys) []
cons_ne_nil h = cc

difference-Compares :
    (x y : ℕ) (xs ys : List ℕ) → x ≢ y → Compares (difference x y) (x ∷ xs) (y ∷ ys)
unfolding head_of
difference-Compares x y xs ys ne = elim (Bool-cases (leb y x)) [
  | inl ge ↦ rw ge (record {
    equal = (
      λ h. absurd (ne (let d : x - y ≡ 0 = pos_inj h in ground arith)),
      λ h. absurd (ne (ap head_of h)),
    );
    less =
        (λ h. absurd h, λ h. elim h [ inl l ↦ absurd (ground arith) | inr (e, l) ↦ absurd (ne e) ]);
  })
  | inr lt ↦ rw lt (record {
    equal = (λ h. absurd (negsuc_ne_pos h), λ h. absurd (ne (ap head_of h)));
    less = (λ h. inl (ground arith), λ h. tt);
  })
]

-- The end of a string counts as the byte 0.
difference-first : (x y : ℕ) (ys : List ℕ) → x ≡ 0 → y ≢ 0 → Compares (difference x y) [] (y ∷ ys)
difference-first x y ys e ne =
    let lt : leb y x ≡ false = ground arith in
    rw lt (record {
      equal = (λ h. absurd (negsuc_ne_pos h), λ h. absurd (nil_ne_cons h));
      less = (λ h. tt, λ h. tt);
    })

difference-second : (x y : ℕ) (xs : List ℕ) → y ≡ 0 → x ≢ 0 → Compares (difference x y) (x ∷ xs) []
difference-second x y xs e ne =
    let ge : leb y x ≡ true = ground arith in
    rw ge (record {
      equal = (
        λ h. absurd (ne (let d : x - y ≡ 0 = pos_inj h in omega arith)),
        λ h. absurd (cons_ne_nil h),
      );
      less = (λ h. h, λ h. h);
    })

difference-ends : (x y : ℕ) → x ≡ 0 → y ≡ 0 → Compares (difference x y) [] []
difference-ends x y e e' = subst (λ r. Compares r [] []) (sym zero_difference) Compares-nil
  where
    zero_difference : difference x y ≡ pos 0
    zero_difference = let ge : leb y x ≡ true = ground arith in rw ge (ap pos (omega arith))

difference-at :
    (p q x y : ℕ) (xs ys : List ℕ)
    → p ≡ x
    → q ≡ y
    → (p == q) ≡ false
    → Compares (difference p q) (x ∷ xs) (y ∷ ys)
difference-at p q x y xs ys e e' other =
    subst (λ k. Compares (difference k q) (x ∷ xs) (y ∷ ys)) (sym e)
      (subst (λ k. Compares (difference x k) (x ∷ xs) (y ∷ ys)) (sym e')
        (difference-Compares x y xs ys (ground arith)))

strcmp-Compares :
    (fuel s1 s2 : ℕ) (xs ys : List ℕ) (m : Bytes)
    → StringAt m s1 xs
    → StringAt m s2 ys
    → length xs < fuel
    → (r : ℤ) × (strcmp fuel s1 s2 m ≡ some r) × Compares r xs ys
unfolding strcmp
strcmp-Compares zero s1 s2 xs ys m a b l = absurd (omega arith)
strcmp-Compares (suc fuel) s1 s2 [] [] m a b l =
    let z : (m s1 == 0) ≡ true = ground arith in
    rw z (difference (m s1) (m s2), refl, difference-ends (m s1) (m s2) a b)
strcmp-Compares (suc fuel) s1 s2 [] (y ∷ ys) m a (e, ne, b) l =
    let z : (m s1 == 0) ≡ true = ground arith in
    rw z (
      difference (m s1) (m s2),
      refl,
      subst (λ k. Compares (difference (m s1) k) [] (y ∷ ys)) (sym e)
          (difference-first (m s1) y ys a ne),
    )
strcmp-Compares (suc fuel) s1 s2 (x ∷ xs) [] m (e, ne, a) b l =
    let z : (m s1 == 0) ≡ false = ground arith in
    let w : (m s1 == m s2) ≡ false = ground arith in
    rw z (
      rw w (
        difference (m s1) (m s2),
        refl,
        subst (λ k. Compares (difference k (m s2)) (x ∷ xs) []) (sym e)
            (difference-second x (m s2) xs b ne),
      ))
strcmp-Compares (suc fuel) s1 s2 (x ∷ xs) (y ∷ ys) m (e, ne, a) (e', ne', b) l =
    let z : (m s1 == 0) ≡ false = ground arith in
    rw z (elim (Bool-cases (m s1 == m s2)) [
      | inl same ↦
          let (r, eq, c) = strcmp-Compares fuel (s1 + 1) (s2 + 1) xs ys m a b (omega arith) in
          rw same (r, eq, Compares-next r x y xs ys (ground arith) c)
      | inr other ↦
          rw other (difference (m s1) (m s2), refl, difference-at (m s1) (m s2) x y _ _ e e' other)
    ])

strncmp-Compares :
    (n s1 s2 : ℕ) (xs ys : List ℕ) (m : Bytes)
    → StringAt m s1 xs
    → StringAt m s2 ys
    → Compares (strncmp s1 s2 n m) (take n xs) (take n ys)
unfolding strncmp
strncmp-Compares zero s1 s2 xs ys m a b = Compares-nil
strncmp-Compares (suc n) s1 s2 [] [] m a b =
    let z : (m s1 == 0) ≡ true = ground arith in rw z (difference-ends (m s1) (m s2) a b)
strncmp-Compares (suc n) s1 s2 [] (y ∷ ys) m a (e, ne, b) =
    let z : (m s1 == 0) ≡ true = ground arith in
    rw z (
      subst (λ k. Compares (difference (m s1) k) [] (y ∷ take n ys)) (sym e)
        (difference-first (m s1) y (take n ys) a ne))
strncmp-Compares (suc n) s1 s2 (x ∷ xs) [] m (e, ne, a) b =
    let z : (m s1 == 0) ≡ false = ground arith in
    let w : (m s1 == m s2) ≡ false = ground arith in
    rw z (
      rw w (
        subst (λ k. Compares (difference k (m s2)) (x ∷ take n xs) []) (sym e)
          (difference-second x (m s2) (take n xs) b ne)))
strncmp-Compares (suc n) s1 s2 (x ∷ xs) (y ∷ ys) m (e, ne, a) (e', ne', b) =
    let z : (m s1 == 0) ≡ false = ground arith in
    rw z (elim (Bool-cases (m s1 == m s2)) [
      | inl same ↦ rw same (
          Compares-next _ x y (take n xs) (take n ys) (ground arith)
            (strncmp-Compares n (s1 + 1) (s2 + 1) xs ys m a b))
      | inr other ↦ rw other (difference-at (m s1) (m s2) x y _ _ e e' other)
    ])

memcmp_from-Compares :
    (n i a b : ℕ) (m : Bytes)
    → Compares (memcmp_from n i a b m) (bytes_at m (a + i) n) (bytes_at m (b + i) n)
unfolding memcmp_from
memcmp_from-Compares zero i a b m = Compares-nil
memcmp_from-Compares (suc n) i a b m = elim (Bool-cases (m (a + i) == m (b + i))) [
  | inl same ↦ rw same (
      Compares-next _ (m (a + i)) (m (b + i)) _ _ (ground arith)
        (next (memcmp_from-Compares n (i + 1) a b m)))
  | inr other ↦ rw other (difference-Compares (m (a + i)) (m (b + i)) _ _ (λ e. ground arith))
]
  where
    next :
        {r : ℤ}
        → Compares r (bytes_at m (a + (i + 1)) n) (bytes_at m (b + (i + 1)) n)
        → Compares r (bytes_at m (a + i + 1) n) (bytes_at m (b + i + 1) n)
    next {r} h =
        subst (λ k. Compares r (bytes_at m k n) (bytes_at m (b + i + 1) n)) (omega arith)
          (subst (λ k. Compares r (bytes_at m (a + (i + 1)) n) (bytes_at m k n)) (omega arith) h)

-- `strcmp` of two strings, of which the first is shorter than the fuel, ends with 0 exactly if
-- they are equal, and with a negative number exactly if the first comes first in the dictionary by
-- unsigned bytes. `strncmp` tells the same of their first `n` characters, and `memcmp` of the `n` bytes
-- at the two places, which need not be strings.
pub strcmp-memcmp :
    (fuel s1 s2 n : ℕ) (xs ys : List ℕ) (m : Bytes)
    → StringAt m s1 xs
    → StringAt m s2 ys
    → length xs < fuel
    → ((r : ℤ) × (strcmp fuel s1 s2 m ≡ some r) × Compares r xs ys)
      × Compares (strncmp s1 s2 n m) (take n xs) (take n ys)
      × Compares (memcmp s1 s2 n m) (bytes_at m s1 n) (bytes_at m s2 n)
unfolding memcmp
strcmp-memcmp fuel s1 s2 n xs ys m a b l = (
  strcmp-Compares fuel s1 s2 xs ys m a b l,
  strncmp-Compares n s1 s2 xs ys m a b,
  subst (λ k. Compares (memcmp_from n 0 s1 s2 m) (bytes_at m k n) (bytes_at m s2 n)) (omega arith)
      (subst (λ k. Compares (memcmp_from n 0 s1 s2 m) (bytes_at m (s1 + 0) n) (bytes_at m k n))
        (omega arith) (memcmp_from-Compares n 0 s1 s2 m)),
)
