-- ===== src/Strings/Numbers.antt =====
-- The loops of `itoa` and `atoi` of lib/string.c: digits that are written from the right, a string
-- that is turned around, and digits that are read from the left.
use amit_x.Prelude.{
  ℕ, zero, suc, ◌+◌, ◌-◌, ◌*◌, ◌/◌, ◌%◌, ◌^◌, ◌≤◌, ◌<◌, ◌≡◌, ◌≢◌, refl, ap, ◌∙◌, subst, arith, true,
  false, some, ltb, ◌==◌, Bool-cases, ◌⊎◌, inl, inr,
}
use native.Mathlib.Nat.{pow-suc}
use amit_x.Strings.{Bytes, store}
use amit_x.Strings.Memory.{store-same, store-other}
use amit_x.Strings.Decimal.{is_digit, atoi_from, put_digits, swap_from}

-- The number without its last `k` digits.
abbrev pub shift : ℕ → ℕ → ℕ
shift zero n = n
shift (suc k) n = shift k (n / 10)

shift-last : (k n : ℕ) → shift k (n / 10) ≡ shift k n / 10
shift-last zero n = refl
shift-last (suc k) n = shift-last k (n / 10)

shift_le : (k n : ℕ) → shift k n ≤ n
shift_le zero n = omega arith
shift_le (suc k) n = omega (arith, shift_le k (n / 10))

-- The character of its `k`th digit from the right.
abbrev pub digit : ℕ → ℕ → ℕ
digit k n = shift k n % 10 + 48

-- The `i` characters at `str` are the digits of `n` from the right, and there are no more.
pub record Digits (n i str c : ℕ) (m m' : Bytes) : Type 0 where
  pub inside : (k : ℕ) → k < c → m' (str + i + k) ≡ digit k n
  pub outside : (b : ℕ) → (b < str + i) ⊎ (str + i + c ≤ b) → m' b ≡ m b
  pub all : shift c n ≡ 0
  pub some_left : 0 < c

fuel_left : (fuel n : ℕ) → n < 10 ^ fuel → 0 < n → 0 < fuel
fuel_left zero n h z = omega arith
fuel_left (suc fuel) n h z = omega arith

pub put_digits-Digits :
    (fuel n i str : ℕ) (m : Bytes)
    → n < 10 ^ fuel
    → 0 < fuel
    → (c : ℕ) × (m' : Bytes) × (put_digits fuel n i str m ≡ some (i + c, m'))
      × (c ≤ fuel)
      × Digits n i str c m m'
unfolding put_digits
put_digits-Digits zero n i str m h z = absurd (omega arith)
put_digits-Digits (suc fuel) n i str m h z = elim (Bool-cases (ltb 0 (n / 10))) [
  | inr last ↦
      rw last (1, store (str + i) (n % 10 + 48) m, refl, omega arith, one_digit (ground arith))
  | inl more ↦
      let small : n / 10 < 10 ^ fuel = omega (arith, pow-suc 10 fuel) in
      let (c, m', eq, few, d) =
        put_digits-Digits fuel (n / 10) (i + 1) str (store (str + i) (n % 10 + 48) m) small
          (fuel_left fuel (n / 10) small (ground arith)) in
      rw more (suc c, m', eq ∙ ap (λ k. some (k, m')) (omega arith), omega arith, longer d)
]
  where
    one_digit : n / 10 ≡ 0 → Digits n i str 1 m (store (str + i) (n % 10 + 48) m)
    one_digit e = record {
      inside = inside;
      outside = λ b o.
          store-other (str + i) (n % 10 + 48) m b
            (λ q. elim o [ inl l ↦ omega arith | inr l ↦ omega arith ]);
      all = e;
      some_left = omega arith;
    }
      where
        inside : (k : ℕ) → k < 1 → store (str + i) (n % 10 + 48) m (str + i + k) ≡ digit k n
        inside zero l = store-same (str + i) (n % 10 + 48) m (str + i + 0) (omega arith)
        inside (suc k) l = absurd (omega arith)

    longer :
        {c : ℕ} {m' : Bytes}
        → Digits (n / 10) (i + 1) str c (store (str + i) (n % 10 + 48) m) m'
        → Digits n i str (suc c) m m'
    longer {c} {m'} d = record {
      inside = inside;
      outside = λ b o.
          d.outside b (elim o [ inl l ↦ inl (omega arith) | inr l ↦ inr (omega arith) ])
          ∙ store-other (str + i) (n % 10 + 48) m b
              (λ q. elim o [ inl l ↦ omega arith | inr l ↦ omega arith ]);
      all = d.all;
      some_left = omega arith;
    }
      where
        inside : (k : ℕ) → k < suc c → m' (str + i + k) ≡ digit k n
        inside zero l =
            ap m' (omega arith)
            ∙ d.outside (str + i) (inl (omega arith))
            ∙ store-same (str + i) (n % 10 + 48) m (str + i) refl
        inside (suc k) l = ap m' (omega arith) ∙ d.inside k (omega arith)

-- The characters between index `j` and the end, as far behind, are turned around.
pub record Turned (j i str : ℕ) (m m' : Bytes) : Type 0 where
  pub inside : (k : ℕ) → j ≤ k → k + j < i → m' (str + k) ≡ m (str + (i - 1 - k))
  pub outside : (b : ℕ) → (b < str + j) ⊎ (str + i ≤ b + j) → m' b ≡ m b

abbrev swapped : ℕ → ℕ → ℕ → Bytes → Bytes
swapped j i str m =
    store (str + (i - 1 - j)) (m (str + j)) (store (str + j) (m (str + (i - 1 - j))) m)

swapped-other :
    (j i str : ℕ) (m : Bytes) (b : ℕ)
    → b ≢ str + j
    → b ≢ str + (i - 1 - j)
    → swapped j i str m b ≡ m b
swapped-other j i str m b h h' =
    store-other (str + (i - 1 - j)) (m (str + j)) (store (str + j) (m (str + (i - 1 - j))) m) b h'
    ∙ store-other (str + j) (m (str + (i - 1 - j))) m b h

Turned-first :
    (j i str : ℕ) (m m' : Bytes)
    → 2 * j + 2 ≤ i
    → Turned (j + 1) i str (swapped j i str m) m'
    → Turned j i str m m'
Turned-first j i str m m' h t = record { inside = inside; outside = outside }
  where
    inside : (k : ℕ) → j ≤ k → k + j < i → m' (str + k) ≡ m (str + (i - 1 - k))
    inside k l l' = elim (Bool-cases (k == j)) [
      | inl y ↦
          let e : k ≡ j = ground arith in
          t.outside (str + k) (inl (omega arith))
          ∙ store-other (str + (i - 1 - j)) (m (str + j))
              (store (str + j) (m (str + (i - 1 - j))) m) (str + k) (λ q. omega arith)
          ∙ store-same (str + j) (m (str + (i - 1 - j))) m (str + k) (omega arith)
          ∙ ap (λ x. m (str + x)) (omega arith)
      | inr z ↦ elim (Bool-cases (k + j + 1 == i)) [
        | inl y ↦
            let e : k + j + 1 ≡ i = ground arith in
            t.outside (str + k) (inr (omega arith))
            ∙ store-same (str + (i - 1 - j)) (m (str + j))
                (store (str + j) (m (str + (i - 1 - j))) m) (str + k) (omega arith)
            ∙ ap (λ x. m (str + x)) (omega arith)
        | inr w ↦
            t.inside k (ground arith) (ground arith)
            ∙ swapped-other j i str m (str + (i - 1 - k)) (λ q. ground arith) (λ q. ground arith)
      ]
    ]

    outside : (b : ℕ) → (b < str + j) ⊎ (str + i ≤ b + j) → m' b ≡ m b
    outside b o =
        t.outside b (elim o [ inl x ↦ inl (omega arith) | inr y ↦ inr (omega arith) ])
        ∙ swapped-other j i str m b (λ q. elim o [ inl x ↦ omega arith | inr y ↦ omega arith ])
            (λ q. elim o [ inl x ↦ omega arith | inr y ↦ omega arith ])

pub swap_from-Turned :
    (n j i str : ℕ) (m : Bytes)
    → 2 * (n + j) ≤ i
    → i ≤ 2 * (n + j) + 1
    → Turned j i str m (swap_from n j i str m)
unfolding swap_from
swap_from-Turned zero j i str m h h' = record {
  inside = λ k l l'. ap (λ x. m (str + x)) (omega arith);
  outside = λ b o. refl;
}
swap_from-Turned (suc n) j i str m h h' =
    Turned-first j i str m _ (omega arith)
      (swap_from-Turned n (j + 1) i str (swapped j i str m) (omega arith) (omega arith))

-- `k` digits of `n` lie at `a` from the left, and something else behind them.
pub atoi_from-digits :
    (fuel k a n : ℕ) (m : Bytes)
    → ((j : ℕ) → j < k → m (a + j) ≡ digit (k - 1 - j) n)
    → is_digit (m (a + k)) ≡ false
    → k < fuel
    → n < 2 ^ 32
    → atoi_from fuel (shift k n) a m ≡ some n
unfolding atoi_from
atoi_from-digits zero k a n m ds e l b = absurd (omega arith)
atoi_from-digits (suc fuel) zero a n m ds e l b =
    let e' : is_digit (m a) ≡ false = ap (λ x. is_digit (m x)) (omega arith) ∙ e in rw e' refl
atoi_from-digits (suc fuel) (suc k) a n m ds e l b =
    let e1 : m a ≡ m (a + 0) = ap m (omega arith) in
    let i2 : suc k - 1 - 0 ≡ k = omega arith in
    let e2 : digit (suc k - 1 - 0) n ≡ digit k n = ap (λ x. digit x n) i2 in
    let here : m a ≡ digit k n = e1 ∙ ds 0 (omega arith) ∙ e2 in
    let yes_digit : is_digit (m a) ≡ true = ground (arith, here) in
    let step : (shift k (n / 10) * 10 + (m a - 48)) % 2 ^ 32 ≡ shift k n =
      ground (arith, here, shift-last k n, shift_le k n) in
    let stop : is_digit (m (a + 1 + k)) ≡ false =
      subst (λ x. is_digit (m x) ≡ false) (omega arith) e in
    rw yes_digit (
      ap (λ r. atoi_from fuel r (a + 1) m) step
      ∙ atoi_from-digits fuel k (a + 1) n m (next ds) stop (omega arith) b)
  where
    next :
        ((j : ℕ) → j < suc k → m (a + j) ≡ digit (suc k - 1 - j) n)
        → (j : ℕ) → j < k
        → m (a + 1 + j) ≡ digit (k - 1 - j) n
    next ds j h =
        let e1 : m (a + 1 + j) ≡ m (a + suc j) = ap m (omega arith) in
        let i2 : suc k - 1 - suc j ≡ k - 1 - j = omega arith in
        let e2 : digit (suc k - 1 - suc j) n ≡ digit (k - 1 - j) n = ap (λ x. digit x n) i2 in
        e1 ∙ ds (suc j) (omega arith) ∙ e2
