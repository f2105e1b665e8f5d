-- ===== src/Strings/Memory.antt =====
-- `memset`, `memcpy` and `memmove` of lib/string.c.
use amit_x.Prelude.{
  ℕ, zero, suc, ◌+◌, ◌%◌, ◌≤◌, ◌<◌, ◌≡◌, ◌≢◌, refl, ap, sym, ◌∙◌, subst, arith, true, false, ltb,
  ◌==◌, Bool-cases, ◌⊎◌, inl, inr,
}
use amit_x.Strings.{Bytes, store, memset, memcpy, zero_run, move_up, move_down, memmove}

pub store-same : (a v : ℕ) (m : Bytes) (b : ℕ) → b ≡ a → store a v m b ≡ v
unfolding store
store-same a v m b e = let y : (b == a) ≡ true = ground arith in rw y refl

pub store-other : (a v : ℕ) (m : Bytes) (b : ℕ) → b ≢ a → store a v m b ≡ m b
unfolding store
store-other a v m b h = let z : (b == a) ≡ false = ground arith in rw z refl

-- The `n` bytes at `dest` are those that lay at `src`, and no other byte has changed.
pub record Moved (dest src n : ℕ) (m m' : Bytes) : Type 0 where
  pub inside : (k : ℕ) → k < n → m' (dest + k) ≡ m (src + k)
  pub outside : (b : ℕ) → (b < dest) ⊎ (dest + n ≤ b) → m' b ≡ m b

Moved-zero : (dest src : ℕ) (m : Bytes) → Moved dest src 0 m m
Moved-zero dest src m = record { inside = λ k h. absurd (omega arith); outside = λ b h. refl }

-- The first byte is stored, and the others then.
Moved-first :
    (dest src n : ℕ) (m m' : Bytes)
    → (dest ≤ src) ⊎ (src + suc n ≤ dest)
    → Moved (dest + 1) (src + 1) n (store dest (m src) m) m'
    → Moved dest src (suc n) m m'
Moved-first dest src n m m' apart h = record { inside = inside; outside = outside }
  where
    inside : (k : ℕ) → k < suc n → m' (dest + k) ≡ m (src + k)
    inside zero l =
        subst (λ d. m' d ≡ m (src + 0)) (omega arith)
          (h.outside dest (inl (omega arith))
            ∙ store-same dest (m src) m dest refl
            ∙ ap m (omega arith))
    inside (suc k) l =
        ap m' (omega arith)
        ∙ h.inside k (omega arith)
        ∙ store-other dest (m src) m (src + 1 + k)
            (λ e. elim apart [ inl x ↦ omega arith | inr y ↦ omega arith ])
        ∙ ap m (omega arith)

    outside : (b : ℕ) → (b < dest) ⊎ (dest + suc n ≤ b) → m' b ≡ m b
    outside b o =
        h.outside b (elim o [ inl x ↦ inl (omega arith) | inr y ↦ inr (omega arith) ])
        ∙ store-other dest (m src) m b (λ e. elim o [ inl x ↦ omega arith | inr y ↦ omega arith ])

-- The last byte is stored, and the others then.
Moved-last :
    (dest src n : ℕ) (m m' : Bytes)
    → src ≤ dest
    → Moved dest src n (store (dest + n) (m (src + n)) m) m'
    → Moved dest src (suc n) m m'
Moved-last dest src n m m' le h = record { inside = inside; outside = outside }
  where
    inside : (k : ℕ) → k < suc n → m' (dest + k) ≡ m (src + k)
    inside k l = elim (Bool-cases (ltb k n)) [
      | inl y ↦
          h.inside k (ground arith)
          ∙ store-other (dest + n) (m (src + n)) m (src + k) (λ e. ground arith)
      | inr z ↦
          let e : k ≡ n = ground arith in
          h.outside (dest + k) (inr (omega arith))
          ∙ store-same (dest + n) (m (src + n)) m (dest + k) (omega arith)
          ∙ ap (λ x. m (src + x)) (sym e)
    ]

    outside : (b : ℕ) → (b < dest) ⊎ (dest + suc n ≤ b) → m' b ≡ m b
    outside b o =
        h.outside b (elim o [ inl x ↦ inl x | inr y ↦ inr (omega arith) ])
        ∙ store-other (dest + n) (m (src + n)) m b
            (λ e. elim o [ inl x ↦ omega arith | inr y ↦ omega arith ])

pub memcpy-Moved :
    (n dest src : ℕ) (m : Bytes)
    → (dest ≤ src) ⊎ (src + n ≤ dest)
    → Moved dest src n m (memcpy dest src n m)
unfolding memcpy
memcpy-Moved zero dest src m h = Moved-zero dest src m
memcpy-Moved (suc n) dest src m h = Moved-first dest src n m _ h (
    memcpy-Moved n (dest + 1) (src + 1) (store dest (m src) m)
      (elim h [ inl x ↦ inl (omega arith) | inr y ↦ inr (omega arith) ]))

move_up-memcpy :
    (n i dest src : ℕ) (m : Bytes) → move_up n i dest src m ≡ memcpy (dest + i) (src + i) n m
unfolding move_up memcpy
move_up-memcpy zero i dest src m = refl
move_up-memcpy (suc n) i dest src m =
    let m' = store (dest + i) (m (src + i)) m in
    move_up-memcpy n (i + 1) dest src m'
    ∙ ap (λ k. memcpy k (src + (i + 1)) n m') (omega arith)
    ∙ ap (λ k. memcpy (dest + i + 1) k n m') (omega arith)

move_down-Moved :
    (n dest src : ℕ) (m : Bytes) → src ≤ dest → Moved dest src n m (move_down n dest src m)
unfolding move_down
move_down-Moved zero dest src m h = Moved-zero dest src m
move_down-Moved (suc n) dest src m h =
    Moved-last dest src n m _ h (move_down-Moved n dest src (store (dest + n) (m (src + n)) m) h)

memmove-Moved : (dest src n : ℕ) (m : Bytes) → Moved dest src n m (memmove dest src n m)
unfolding memmove
memmove-Moved dest src n m = elim (Bool-cases (dest == src)) [
  | inl y ↦ rw y (
      let e : dest ≡ src = ground arith in
      record { inside = λ k h. ap (λ x. m (x + k)) e; outside = λ b h. refl })
  | inr z ↦ rw z (elim (Bool-cases (ltb dest src)) [
    | inl y ↦ rw y (
        subst (Moved dest src n m)
          (sym (
            move_up-memcpy n 0 dest src m
            ∙ ap (λ d. memcpy d (src + 0) n m) (omega arith)
            ∙ ap (λ s. memcpy dest s n m) (omega arith)))
          (memcpy-Moved n dest src m (inl (ground arith))))
    | inr w ↦ rw w (move_down-Moved n dest src m (ground arith))
  ])
]

-- The `n` bytes at `dest` are `v`, and no other byte has changed.
pub record Filled (dest v n : ℕ) (m m' : Bytes) : Type 0 where
  pub inside : (k : ℕ) → k < n → m' (dest + k) ≡ v
  pub outside : (b : ℕ) → (b < dest) ⊎ (dest + n ≤ b) → m' b ≡ m b

Filled-first :
    (dest v n : ℕ) (m m' : Bytes)
    → Filled (dest + 1) v n (store dest v m) m'
    → Filled dest v (suc n) m m'
Filled-first dest v n m m' h = record { inside = inside; outside = outside }
  where
    inside : (k : ℕ) → k < suc n → m' (dest + k) ≡ v
    inside zero l =
        ap m' (omega arith) ∙ h.outside dest (inl (omega arith)) ∙ store-same dest v m dest refl
    inside (suc k) l = ap m' (omega arith) ∙ h.inside k (omega arith)

    outside : (b : ℕ) → (b < dest) ⊎ (dest + suc n ≤ b) → m' b ≡ m b
    outside b o =
        h.outside b (elim o [ inl x ↦ inl (omega arith) | inr y ↦ inr (omega arith) ])
        ∙ store-other dest v m b (λ e. elim o [ inl x ↦ omega arith | inr y ↦ omega arith ])

memset-Filled : (n dest val : ℕ) (m : Bytes) → Filled dest (val % 256) n m (memset dest val n m)
unfolding memset
memset-Filled zero dest val m = record {
  inside = λ k h. absurd (omega arith);
  outside = λ b h. refl;
}
memset-Filled (suc n) dest val m =
    Filled-first dest (val % 256) n m _ (memset-Filled n (dest + 1) val (store dest (val % 256) m))

pub zero_run-Filled : (n dest : ℕ) (m : Bytes) → Filled dest 0 n m (zero_run n dest m)
unfolding zero_run
zero_run-Filled zero dest m = record { inside = λ k h. absurd (omega arith); outside = λ b h. refl }
zero_run-Filled (suc n) dest m =
    Filled-first dest 0 n m _ (zero_run-Filled n (dest + 1) (store dest 0 m))

-- `memmove` leaves at `dest` the `n` bytes that lay at `src` before, whether or not the two overlap;
-- `memcpy` does so where `dest` lies before `src` or the two are apart; and `memset` leaves the low
-- byte of `val` in the `n` bytes at `dest`. None changes another byte.
pub memmove-memcpy :
    (dest src n val : ℕ) (m : Bytes)
    → Moved dest src n m (memmove dest src n m)
      × ((dest ≤ src) ⊎ (src + n ≤ dest) → Moved dest src n m (memcpy dest src n m))
      × Filled dest (val % 256) n m (memset dest val n m)
memmove-memcpy dest src n val m =
    (memmove-Moved dest src n m, memcpy-Moved n dest src m, memset-Filled n dest val m)
