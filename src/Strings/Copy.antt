-- ===== src/Strings/Copy.antt =====
-- `strcpy`, `strcat`, `strncat` and `strncpy` of lib/string.c.
use amit_x.Prelude.{
  ℕ, zero, suc, ◌+◌, ◌≤◌, ◌<◌, ◌≡◌, ◌≢◌, refl, ap, ◌∙◌, subst, arith, true, false, List, [], ◌∷◌,
  ◌++◌, length, take, get_or, some, ◌==◌, Bool-cases, ◌⊎◌, inl, inr,
}
use amit_x.Strings.{
  Bytes, store, strcpy, string_end, append_string, strcat, append_up_to, strncat, strncpy,
}
use amit_x.Strings.Memory.{store-same, store-other, zero_run-Filled}

-- The string `xs`, which no byte 0 interrupts, lies at `a`.
abbrev pub StringAt : Bytes → ℕ → List ℕ → Type 0
StringAt m a [] = m a ≡ 0
StringAt m a (x ∷ xs) = (m a ≡ x) × (x ≢ 0) × StringAt m (a + 1) xs

-- The string `xs` lies at `dest`, and no byte outside it has changed.
pub record Written (dest : ℕ) (xs : List ℕ) (m m' : Bytes) : Type 0 where
  pub string : StringAt m' dest xs
  pub outside : (b : ℕ) → (b < dest) ⊎ (dest + length xs < b) → m' b ≡ m b

-- The `n` bytes at `dest` are `xs` up to its end and 0 from there on, and no other byte has changed.
pub record Padded (dest n : ℕ) (xs : List ℕ) (m m' : Bytes) : Type 0 where
  pub inside : (k : ℕ) → k < n → m' (dest + k) ≡ get_or xs k 0
  pub outside : (b : ℕ) → (b < dest) ⊎ (dest + n ≤ b) → m' b ≡ m b

-- A byte outside a string is stored.
StringAt-store :
    (d v : ℕ) (m : Bytes) (a : ℕ) (xs : List ℕ)
    → (d < a) ⊎ (a + length xs < d)
    → StringAt m a xs
    → StringAt (store d v m) a xs
StringAt-store d v m a [] o s =
    store-other d v m a (λ e. elim o [ inl x ↦ omega arith | inr y ↦ omega arith ]) ∙ s
StringAt-store d v m a (x ∷ xs) o (e, ne, s) = (
  store-other d v m a (λ e'. elim o [ inl h ↦ omega arith | inr h ↦ omega arith ]) ∙ e,
  ne,
  StringAt-store d v m (a + 1) xs (elim o [ inl h ↦ inl (omega arith) | inr h ↦ inr (omega arith) ])
      s,
)

Written-end : (dest : ℕ) (m : Bytes) → Written dest [] m (store dest 0 m)
Written-end dest m = record {
  string = store-same dest 0 m dest refl;
  outside =
      λ b o. store-other dest 0 m b (λ e. elim o [ inl x ↦ omega arith | inr y ↦ omega arith ]);
}

Written-first :
    (dest x : ℕ) (xs : List ℕ) (m m' : Bytes)
    → x ≢ 0
    → Written (dest + 1) xs (store dest x m) m'
    → Written dest (x ∷ xs) m m'
Written-first dest x xs m m' ne w = record {
  string = (w.outside dest (inl (omega arith)) ∙ store-same dest x m dest refl, ne, w.string);
  outside = λ b o.
      w.outside b (elim o [ inl h ↦ inl (omega arith) | inr h ↦ inr (omega arith) ])
      ∙ store-other dest x m b (λ e. elim o [ inl h ↦ omega arith | inr h ↦ omega arith ]);
}

-- What is written behind a string makes it longer.
Written-append :
    (dest : ℕ) (ys xs : List ℕ) (m m' : Bytes)
    → StringAt m dest ys
    → Written (dest + length ys) xs m m'
    → Written dest (ys ++ xs) m m'
Written-append dest [] xs m m' s w = subst (λ d. Written d xs m m') (omega arith) w
Written-append dest (y ∷ ys) xs m m' (e, ne, s) w =
    let rest =
      Written-append (dest + 1) ys xs m m' s (subst (λ d. Written d xs m m') (omega arith) w) in
    record {
      string = (w.outside dest (inl (omega arith)) ∙ e, ne, rest.string);
      outside =
          λ b o. rest.outside b (elim o [ inl h ↦ inl (omega arith) | inr h ↦ inr (omega arith) ]);
    }

-- The two places are apart, or the string is moved towards the start of the memory.
Ahead : ℕ → ℕ → List ℕ → Type 0
Ahead dest src xs = (dest ≤ src) ⊎ (src + length xs < dest)

Ahead-next :
    (dest src x : ℕ) (xs : List ℕ) → Ahead dest src (x ∷ xs) → Ahead (dest + 1) (src + 1) xs
unfolding Ahead
Ahead-next dest src x xs a = elim a [ inl h ↦ inl (omega arith) | inr h ↦ inr (omega arith) ]

-- The rest of a string while its first byte is stored elsewhere.
rest_StringAt :
    (dest src x v : ℕ) (xs : List ℕ) (m : Bytes)
    → Ahead dest src (x ∷ xs)
    → StringAt m (src + 1) xs
    → StringAt (store dest v m) (src + 1) xs
unfolding Ahead
rest_StringAt dest src x v xs m a s =
    StringAt-store dest v m (src + 1) xs
      (elim a [ inl h ↦ inl (omega arith) | inr h ↦ inr (omega arith) ]) s

pub is_end : (a x : ℕ) → a ≡ x → x ≢ 0 → (a == 0) ≡ false
is_end a x e ne = ground arith

append_string-Written :
    (fuel dest src : ℕ) (xs : List ℕ) (m : Bytes)
    → StringAt m src xs
    → length xs < fuel
    → Ahead dest src xs
    → (m' : Bytes) × (append_string fuel dest src m ≡ some m') × Written dest xs m m'
unfolding append_string
append_string-Written zero dest src xs m s l a = absurd (omega arith)
append_string-Written (suc fuel) dest src [] m s l a =
    let y : (m src == 0) ≡ true = ground arith in rw y (store dest 0 m, refl, Written-end dest m)
append_string-Written (suc fuel) dest src (x ∷ xs) m (e, ne, s) l a =
    let (m', r, w) =
      append_string-Written fuel (dest + 1) (src + 1) xs (store dest (m src) m)
        (rest_StringAt dest src x (m src) xs m a s) (omega arith) (Ahead-next dest src x xs a) in
    rw (is_end (m src) x e ne) (
      m',
      r,
      Written-first dest x xs m m' ne (subst (λ v. Written (dest + 1) xs (store dest v m) m') e w),
    )

strcpy-append_string :
    (fuel dest src : ℕ) (m : Bytes) → strcpy fuel dest src m ≡ append_string fuel dest src m
unfolding strcpy append_string
strcpy-append_string zero dest src m = refl
strcpy-append_string (suc fuel) dest src m = elim (Bool-cases (m src == 0)) [
  | inl y ↦ rw y (ap (λ v. some (store dest v m)) (ground arith))
  | inr z ↦ rw z (strcpy-append_string fuel (dest + 1) (src + 1) (store dest (m src) m))
]

append_up_to-Written :
    (n dest src : ℕ) (xs : List ℕ) (m : Bytes)
    → StringAt m src xs
    → Ahead dest src xs
    → Written dest (take n xs) m (append_up_to n dest src m)
unfolding append_up_to
append_up_to-Written zero dest src xs m s a = Written-end dest m
append_up_to-Written (suc n) dest src [] m s a =
    let y : (m src == 0) ≡ true = ground arith in rw y (Written-end dest m)
append_up_to-Written (suc n) dest src (x ∷ xs) m (e, ne, s) a =
    let w =
      append_up_to-Written n (dest + 1) (src + 1) xs (store dest (m src) m)
        (rest_StringAt dest src x (m src) xs m a s) (Ahead-next dest src x xs a) in
    rw (is_end (m src) x e ne) (
      Written-first dest x (take n xs) m _ ne (
        subst
          (λ v.
            Written (dest + 1) (take n xs) (store dest v m)
              (append_up_to n (dest + 1) (src + 1) (store dest (m src) m)))
          e w))

string_end_lem :
    (fuel dest : ℕ) (ys : List ℕ) (m : Bytes)
    → StringAt m dest ys
    → length ys < fuel
    → string_end fuel dest m ≡ some (dest + length ys)
unfolding string_end
string_end_lem zero dest ys m s l = absurd (omega arith)
string_end_lem (suc fuel) dest [] m s l =
    let y : (m dest == 0) ≡ true = ground arith in rw y (ap some (omega arith))
string_end_lem (suc fuel) dest (y ∷ ys) m (e, ne, s) l =
    rw (is_end (m dest) y e ne)
      (string_end_lem fuel (dest + 1) ys m s (omega arith) ∙ ap some (omega arith))

strncpy-Padded :
    (n dest src : ℕ) (xs : List ℕ) (m : Bytes)
    → StringAt m src xs
    → Ahead dest src xs
    → Padded dest n xs m (strncpy dest src n m)
unfolding strncpy
strncpy-Padded zero dest src xs m s a = record {
  inside = λ k h. absurd (omega arith);
  outside = λ b o. refl;
}
strncpy-Padded (suc n) dest src [] m s a =
    let y : (m src == 0) ≡ true = ground arith in
    let f = zero_run-Filled (suc n) dest m in
    rw y (record { inside = f.inside; outside = f.outside })
strncpy-Padded (suc n) dest src (x ∷ xs) m (e, ne, s) a = rw (is_end (m src) x e ne) (
    first (
      strncpy-Padded n (dest + 1) (src + 1) xs (store dest (m src) m)
        (rest_StringAt dest src x (m src) xs m a s) (Ahead-next dest src x xs a)))
  where
    first :
        {m' : Bytes}
        → Padded (dest + 1) n xs (store dest (m src) m) m'
        → Padded dest (suc n) (x ∷ xs) m m'
    first {m'} p = record { inside = inside; outside = outside }
      where
        inside : (k : ℕ) → k < suc n → m' (dest + k) ≡ get_or (x ∷ xs) k 0
        inside zero h =
            ap m' (omega arith)
            ∙ p.outside dest (inl (omega arith))
            ∙ store-same dest (m src) m dest refl
            ∙ e
        inside (suc k) h = ap m' (omega arith) ∙ p.inside k (omega arith)

        outside : (b : ℕ) → (b < dest) ⊎ (dest + suc n ≤ b) → m' b ≡ m b
        outside b o =
            p.outside b (elim o [ inl h ↦ inl (omega arith) | inr h ↦ inr (omega arith) ])
            ∙ store-other dest (m src) m b
                (λ e'. elim o [ inl h ↦ omega arith | inr h ↦ omega arith ])

-- With a string `xs` at `src` and a string `ys` at `dest`, both shorter than the fuel, and `xs` apart
-- from both `ys` and what is to be written: `strcpy` ends and leaves the string `xs` at `dest`; `strcat`
-- ends and leaves `ys ++ xs` there; `strncat` ends and leaves `ys` and the first `n` characters of `xs`;
-- and `strncpy` leaves the first `n` characters of `xs`, with zeros up to the length `n`. None changes
-- a byte elsewhere.
pub strcpy-strcat :
    (fuel dest src n : ℕ) (xs ys : List ℕ) (m : Bytes)
    → StringAt m src xs
    → StringAt m dest ys
    → length xs < fuel
    → length ys < fuel
    → (dest + length ys + length xs < src) ⊎ (src + length xs < dest)
    → ((m' : Bytes) × (strcpy fuel dest src m ≡ some m') × Written dest xs m m')
      × ((m' : Bytes) × (strcat fuel dest src m ≡ some m') × Written dest (ys ++ xs) m m')
      × ((m' : Bytes) × (strncat fuel dest src n m ≡ some m') × Written dest (ys ++ take n xs) m m')
      × Padded dest n xs m (strncpy dest src n m)
unfolding Ahead strcat strncat
strcpy-strcat fuel dest src n xs ys m s t l l' apart =
    let near : Ahead dest src xs = elim apart [
      | inl h ↦ inl (omega arith)
      | inr h ↦ inr (omega arith)
    ] in
    let far : Ahead (dest + length ys) src xs = elim apart [
      | inl h ↦ inl (omega arith)
      | inr h ↦ inr (omega arith)
    ] in
    let (m1, e1, w1) = append_string-Written fuel dest src xs m s l near in
    let (m2, e2, w2) = append_string-Written fuel (dest + length ys) src xs m s l far in
    (
      (m1, strcpy-append_string fuel dest src m ∙ e1, w1),
      (m2, rw (string_end_lem fuel dest ys m t l', strcat) e2, Written-append dest ys xs m m2 t w2),
      (
        append_up_to n (dest + length ys) src m,
        rw (string_end_lem fuel dest ys m t l', strncat) refl,
        Written-append dest ys (take n xs) m _ t
            (append_up_to-Written n (dest + length ys) src xs m s far),
      ),
      strncpy-Padded n dest src xs m s near,
    )
