-- ===== src/Mrt/Flags.antt =====
-- The flags and the ranges of an entry of fs/smkfs/mrt.c.
use amit_x.Prelude.{
  ℕ, zero, suc, ◌/◌, ◌%◌, ◌^◌, ◌<◌, ◌≡◌, bit_or, refl, ap, sym, ◌∙◌, arith, true, false, not, List,
  [], ◌∷◌, set, ◌==◌,
}
use native.Mathlib.Nat.{pow-suc}
use amit_x.Bitmap.Bits.{bit, bit-bit_or, bit_and-pow, bit_or_step}
use amit_x.Mrt.{Entry, blank, entry_at, is_allocated, taken, bound, released}

is_allocated-bit : (e : Entry) → is_allocated e ≡ not (bit e.flags 0 == 0)
unfolding is_allocated
is_allocated-bit e = ap (λ b. not (b == 0)) (bit_and-pow 0 e.flags ∙ omega arith)

pub flag_set : (e : Entry) → is_allocated e ≡ true → e.flags % 2 ≡ 1
flag_set e h = let a = is_allocated-bit e in ground (arith, sym a ∙ h)

pub flag_clear : (e : Entry) → is_allocated e ≡ false → e.flags % 2 ≡ 0
flag_clear e h = let a = is_allocated-bit e in ground (arith, sym a ∙ h)

-- Flags that are added take none away.
pub is_allocated-bound : (b f : ℕ) (e : Entry) → e.flags % 2 ≡ 1 → is_allocated (bound b f e) ≡ true
is_allocated-bound b f e h =
    let c = bit-bit_or 0 e.flags f in is_allocated-bit (bound b f e) ∙ ground (arith, h, c)

pub is_allocated-released : (e : Entry) → is_allocated (released e) ≡ false
unfolding is_allocated
is_allocated-released e = refl

bit_or-lt : (k a b : ℕ) → a < 2 ^ k → b < 2 ^ k → bit_or a b < 2 ^ k
bit_or-lt zero a b h h' =
    let e : a ≡ 0 = omega arith in let e' : b ≡ 0 = omega arith in rw (e, e') (omega arith)
bit_or-lt (suc k) a b h h' =
    let p = pow-suc 2 k in
    let ih = bit_or-lt k (a / 2) (b / 2) (omega (arith, p)) (omega (arith, p)) in
    let s = bit_or_step a b in omega (arith, p, ih, s)

-- The fields of an entry are within their widths.
pub record Fits (e : Entry) : Type 0 where
  pub block : e.physical_block < 2 ^ 64
  pub flags : e.flags < 2 ^ 16
  pub reserved : e.reserved < 2 ^ 16
  pub generation : e.generation < 2 ^ 32

abbrev pub AllFit : List Entry → Type 0
AllFit es = (j : ℕ) → Fits (entry_at es j)

pub taken-Fits : (e : Entry) → Fits e → Fits (taken e)
taken-Fits e f = record {
  block = omega arith;
  flags = bit_or-lt 16 e.flags 1 f.flags (omega arith);
  reserved = f.reserved;
  generation = omega arith;
}

pub bound-Fits : (b fl : ℕ) (e : Entry) → b < 2 ^ 64 → fl < 2 ^ 16 → Fits e → Fits (bound b fl e)
bound-Fits b fl e h h' f = record {
  block = h;
  flags = bit_or-lt 16 e.flags fl f.flags h';
  reserved = f.reserved;
  generation = f.generation;
}

pub released-Fits : (e : Entry) → Fits e → Fits (released e)
released-Fits e f = record {
  block = omega arith;
  flags = omega arith;
  reserved = f.reserved;
  generation = f.generation;
}

pub blank-Fits : Fits blank
blank-Fits = record {
  block = omega arith;
  flags = omega arith;
  reserved = omega arith;
  generation = omega arith;
}

pub AllFit-set : (es : List Entry) (j : ℕ) (e : Entry) → AllFit es → Fits e → AllFit (set es j e)
AllFit-set [] j e a f i = a i
AllFit-set (x ∷ es) zero e a f zero = f
AllFit-set (x ∷ es) zero e a f (suc i) = a (suc i)
AllFit-set (x ∷ es) (suc j) e a f zero = a zero
AllFit-set (x ∷ es) (suc j) e a f (suc i) = AllFit-set es j e (λ k. a (suc k)) f i
