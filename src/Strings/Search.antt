-- ===== src/Strings/Search.antt =====
-- `strlen`, `strnlen`, `strchr`, `strchrnul`, `strrchr` and `memchr` of lib/string.c.
use amit_x.Prelude.{
  ℕ, zero, suc, ◌+◌, ◌%◌, ◌<◌, ◌≡◌, ◌≢◌, min, refl, ap, ◌∙◌, subst, arith, true, List, [], ◌∷◌,
  length, Option, none, some, ◌==◌, if◌then◌else◌, Bool-cases, inl, inr,
}
use amit_x.Strings.{
  Bytes, memchr, strlen_from, strlen, strnlen_from, strnlen, strchr, strchrnul, strrchr_from,
  strrchr,
}
use amit_x.Strings.Copy.{StringAt, is_end}

-- The answer is the first of the `n` bytes at `a` that is `c`, or NULL and there is none.
abbrev pub First : Bytes → ℕ → ℕ → ℕ → Option ℕ → Type 0
First m c a n none = (j : ℕ) → j < n → m (a + j) ≢ c
First m c a n (some p) =
    (k : ℕ) × (k < n) × (p ≡ a + k) × (m p ≡ c) × ((j : ℕ) → j < k → m (a + j) ≢ c)

-- The answer is the last of them, or NULL and there is none.
abbrev pub Last : Bytes → ℕ → ℕ → ℕ → Option ℕ → Type 0
Last m c a n none = (j : ℕ) → j < n → m (a + j) ≢ c
Last m c a n (some p) =
    (k : ℕ) × (k < n) × (p ≡ a + k) × (m p ≡ c) × ((j : ℕ) → k < j → j < n → m (a + j) ≢ c)

First-here : (m : Bytes) (c a n : ℕ) → m a ≡ c → First m c a (suc n) (some a)
First-here m c a n e = (0, omega arith, omega arith, e, λ j h. absurd (omega arith))

not_at : (m : Bytes) (c a : ℕ) → m a ≢ c → m (a + 0) ≢ c
not_at m c a h e = h (ap m (omega arith) ∙ e)

later : (m : Bytes) (c a k : ℕ) → m (a + 1 + k) ≢ c → m (a + suc k) ≢ c
later m c a k h e = h (ap m (omega arith) ∙ e)

First-next :
    (m : Bytes) (c a n : ℕ) (r : Option ℕ) → m a ≢ c → First m c (a + 1) n r → First m c a (suc n) r
First-next m c a n none ne f = away
  where
    away : (j : ℕ) → j < suc n → m (a + j) ≢ c
    away zero h = not_at m c a ne
    away (suc j) h = later m c a j (f j (omega arith))
First-next m c a n (some p) ne (k, l, at, e, before) = (suc k, omega arith, omega arith, e, away)
  where
    away : (j : ℕ) → j < suc k → m (a + j) ≢ c
    away zero h = not_at m c a ne
    away (suc j) h = later m c a j (before j (omega arith))

memchr-First : (n src c : ℕ) (m : Bytes) → First m c src n (memchr src c n m)
unfolding memchr
memchr-First zero src c m = λ j h. absurd (omega arith)
memchr-First (suc n) src c m = elim (Bool-cases (m src == c)) [
  | inl y ↦ rw y (First-here m c src n (ground arith))
  | inr z ↦ rw z (First-next m c src n _ (λ e. ground arith) (memchr-First n (src + 1) c m))
]

-- The address, or the end of the string for NULL.
abbrev pub or_end : Option ℕ → ℕ → ℕ
or_end none end = end
or_end (some p) end = p

or_end-next : (r : Option ℕ) (s n : ℕ) → or_end r (s + 1 + n) ≡ or_end r (s + suc n)
or_end-next none s n = omega arith
or_end-next (some p) s n = refl

strchr-First :
    (fuel s c : ℕ) (xs : List ℕ) (m : Bytes)
    → StringAt m s xs
    → length xs < fuel
    → (r : Option ℕ) × (strchr fuel s c m ≡ some r)
      × (strchrnul fuel s c m ≡ some (or_end r (s + length xs)))
      × First m (c % 256) s (length xs) r
unfolding strchr strchrnul
strchr-First zero s c xs m st l = absurd (omega arith)
strchr-First (suc fuel) s c [] m st l =
    let y : (m s == 0) ≡ true = ground arith in
    rw y (none, refl, ap some (omega arith), λ j h. absurd (omega arith))
strchr-First (suc fuel) s c (x ∷ xs) m (e, ne, st) l =
    rw (is_end (m s) x e ne) (elim (Bool-cases (m s == c % 256)) [
      | inl y ↦ rw y (some s, refl, refl, First-here m (c % 256) s (length xs) (ground arith))
      | inr z ↦
          let (r, eq, eq', f) = strchr-First fuel (s + 1) c xs m st (omega arith) in
          rw z (
            r,
            eq,
            eq' ∙ ap some (or_end-next r s (length xs)),
            First-next m (c % 256) s (length xs) r (λ e'. ground arith) f,
          )
    ])

-- What was found in the rest, or else before.
newest : Option ℕ → Option ℕ → Option ℕ
newest none last = last
newest (some p) last = some p

Last-here :
    (m : Bytes) (c a n : ℕ) → m a ≡ c → Last m c (a + 1) n none → Last m c a (suc n) (some a)
Last-here m c a n e f = (0, omega arith, omega arith, e, away)
  where
    away : (j : ℕ) → 0 < j → j < suc n → m (a + j) ≢ c
    away zero h h' = absurd (omega arith)
    away (suc j) h h' = later m c a j (f j (omega arith))

Last-none : (m : Bytes) (c a n : ℕ) → m a ≢ c → Last m c (a + 1) n none → Last m c a (suc n) none
Last-none m c a n ne f = away
  where
    away : (j : ℕ) → j < suc n → m (a + j) ≢ c
    away zero h = not_at m c a ne
    away (suc j) h = later m c a j (f j (omega arith))

Last-next : (m : Bytes) (c a n p : ℕ) → Last m c (a + 1) n (some p) → Last m c a (suc n) (some p)
Last-next m c a n p (k, l, at, e, after) = (suc k, omega arith, omega arith, e, away)
  where
    away : (j : ℕ) → suc k < j → j < suc n → m (a + j) ≢ c
    away zero h h' = absurd (omega arith)
    away (suc j) h h' = later m c a j (after j (omega arith) (omega arith))

strrchr_from-Last :
    (fuel s c : ℕ) (last : Option ℕ) (xs : List ℕ) (m : Bytes)
    → StringAt m s xs
    → length xs < fuel
    → (r : Option ℕ) × (strrchr_from fuel s c last m ≡ some (newest r last))
      × Last m (c % 256) s (length xs) r
unfolding strrchr_from newest
strrchr_from-Last zero s c last xs m st l = absurd (omega arith)
strrchr_from-Last (suc fuel) s c last [] m st l =
    let y : (m s == 0) ≡ true = ground arith in rw y (none, refl, λ j h. absurd (omega arith))
strrchr_from-Last (suc fuel) s c last (x ∷ xs) m (e, ne, st) l = rw (is_end (m s) x e ne) (
    joined (
      strrchr_from-Last fuel (s + 1) c (if m s == c % 256 then some s else last) xs m st
        (omega arith)))
  where
    joined :
        {t : Option (Option ℕ)}
        → ((r : Option ℕ) × (t ≡ some (newest r (if m s == c % 256 then some s else last)))
            × Last m (c % 256) (s + 1) (length xs) r)
        → (r : Option ℕ) × (t ≡ some (newest r last)) × Last m (c % 256) s (suc (length xs)) r
    joined (some p, eq, f) = (some p, eq, Last-next m (c % 256) s (length xs) p f)
    joined (none, eq, f) = elim (Bool-cases (m s == c % 256)) [
      | inl y ↦ (some s, eq ∙ rw y refl, Last-here m (c % 256) s (length xs) (ground arith) f)
      | inr z ↦ (none, eq ∙ rw z refl, Last-none m (c % 256) s (length xs) (λ e'. ground arith) f)
    ]

strlen_from_lem :
    (fuel len s : ℕ) (xs : List ℕ) (m : Bytes)
    → StringAt m (s + len) xs
    → length xs < fuel
    → strlen_from fuel len s m ≡ some (len + length xs)
unfolding strlen_from
strlen_from_lem zero len s xs m st l = absurd (omega arith)
strlen_from_lem (suc fuel) len s [] m st l =
    let y : (m (s + len) == 0) ≡ true = ground arith in rw y (ap some (omega arith))
strlen_from_lem (suc fuel) len s (x ∷ xs) m (e, ne, st) l = rw (is_end (m (s + len)) x e ne) (
    strlen_from_lem fuel (len + 1) s xs m (subst (λ a. StringAt m a xs) (omega arith) st)
      (omega arith)
    ∙ ap some (omega arith))

strnlen_from_lem :
    (n len s : ℕ) (xs : List ℕ) (m : Bytes)
    → StringAt m (s + len) xs
    → strnlen_from n len s m ≡ len + min n (length xs)
unfolding strnlen_from
strnlen_from_lem zero len s xs m st = omega arith
strnlen_from_lem (suc n) len s [] m st =
    let y : (m (s + len) == 0) ≡ true = ground arith in rw y (omega arith)
strnlen_from_lem (suc n) len s (x ∷ xs) m (e, ne, st) =
    let ih = strnlen_from_lem n (len + 1) s xs m (subst (λ a. StringAt m a xs) (omega arith) st) in
    rw (is_end (m (s + len)) x e ne) (omega (arith, ih))

newest-none : (r : Option ℕ) → newest r none ≡ r
unfolding newest
newest-none none = refl
newest-none (some p) = refl

-- With a string `xs` at `s` that is shorter than the fuel: `strlen` answers its length, and `strnlen` that or
-- the limit, whichever is less; `strchr` answers the address of the first character that is the low
-- byte of `c`, or NULL and there is none; `strchrnul` answers the end of the string in place of
-- NULL; and `strrchr` answers the address of the last such character, or NULL and there is none.
-- `memchr` answers the first of the `n` bytes at `s` that equals `c`, or NULL and there is none.
pub strchr-strrchr :
    (fuel s c n : ℕ) (xs : List ℕ) (m : Bytes)
    → StringAt m s xs
    → length xs < fuel
    → (strlen fuel s m ≡ some (length xs))
      × (strnlen s n m ≡ min n (length xs))
      × ((r : Option ℕ) × (strchr fuel s c m ≡ some r)
          × (strchrnul fuel s c m ≡ some (or_end r (s + length xs)))
          × First m (c % 256) s (length xs) r)
      × ((r : Option ℕ) × (strrchr fuel s c m ≡ some r) × Last m (c % 256) s (length xs) r)
      × First m c s n (memchr s c n m)
unfolding strlen strnlen strrchr
strchr-strrchr fuel s c n xs m st l =
    let st' : StringAt m (s + 0) xs = subst (λ a. StringAt m a xs) (omega arith) st in
    let (r, eq, f) = strrchr_from-Last fuel s c none xs m st l in
    (
      strlen_from_lem fuel 0 s xs m st' l ∙ ap some (omega arith),
      strnlen_from_lem n 0 s xs m st' ∙ omega arith,
      strchr-First fuel s c xs m st l,
      (r, eq ∙ ap some (newest-none r), f),
      memchr-First n s c m,
    )
