-- ===== src/Mrt/Bytes.antt =====
-- The entries of fs/smkfs/mrt.c in the bytes of a block: the little-endian fields that the cast reads.
use amit_x.Prelude.{
  ℕ, zero, suc, ◌+◌, ◌*◌, ◌/◌, ◌%◌, ◌^◌, ◌<◌, ◌≡◌, refl, ap, arith, List, [], ◌∷◌, length,
}
use native.Mathlib.Nat.{pow-suc}
use amit_x.Mrt.{Entry, blank}
use amit_x.Mrt.Flags.{Fits, AllFit, blank-Fits}

-- The number that `w` bytes hold, the lowest first; and its bytes before `rest`.
unfoldable pub unle : ℕ → List ℕ → ℕ
unle zero bytes = 0
unle (suc w) [] = 0
unle (suc w) (b ∷ bytes) = b % 256 + 256 * unle w bytes

unfoldable pub le : ℕ → ℕ → List ℕ → List ℕ
le zero n rest = rest
le (suc w) n rest = n % 256 ∷ le w (n / 256) rest

unfoldable pub skip : ℕ → List ℕ → List ℕ
skip zero bytes = bytes
skip (suc w) [] = []
skip (suc w) (b ∷ bytes) = skip w bytes

unle-lt : (w : ℕ) (bytes : List ℕ) → unle w bytes < 256 ^ w
unfolding unle
unle-lt zero bytes = omega arith
unle-lt (suc w) [] = let h = unle-lt w [] in omega (arith, pow-suc 256 w, h)
unle-lt (suc w) (b ∷ bytes) = let h = unle-lt w bytes in omega (arith, pow-suc 256 w, h)

unle-le : (w n : ℕ) (rest : List ℕ) → n < 256 ^ w → unle w (le w n rest) ≡ n
unfolding unle le
unle-le zero n rest h = omega arith
unle-le (suc w) n rest h =
    let ih = unle-le w (n / 256) rest (omega (arith, pow-suc 256 w)) in omega (arith, ih)

skip-le : (w n : ℕ) (rest : List ℕ) → skip w (le w n rest) ≡ rest
unfolding skip le
skip-le zero n rest = refl
skip-le (suc w) n rest = skip-le w (n / 256) rest

length-le : (w n : ℕ) (rest : List ℕ) → length (le w n rest) ≡ w + length rest
unfolding le
length-le zero n rest = omega arith
length-le (suc w) n rest = let h = length-le w (n / 256) rest in omega (arith, h)

unfoldable pub to_entry : List ℕ → Entry
to_entry bytes = record {
  physical_block = unle 8 bytes;
  flags = unle 2 (skip 8 bytes);
  reserved = unle 2 (skip 2 (skip 8 bytes));
  generation = unle 4 (skip 2 (skip 2 (skip 8 bytes)));
}

unfoldable pub of_entry : Entry → List ℕ → List ℕ
of_entry e rest = le 8 e.physical_block (le 2 e.flags (le 2 e.reserved (le 4 e.generation rest)))

unfoldable pub next : List ℕ → List ℕ
next bytes = skip 4 (skip 2 (skip 2 (skip 8 bytes)))

to_entry-Fits : (bytes : List ℕ) → Fits (to_entry bytes)
unfolding to_entry
to_entry-Fits bytes = record {
  block = unle-lt 8 bytes;
  flags = unle-lt 2 (skip 8 bytes);
  reserved = unle-lt 2 (skip 2 (skip 8 bytes));
  generation = unle-lt 4 (skip 2 (skip 2 (skip 8 bytes)));
}

to_entry-of_entry : (e : Entry) (rest : List ℕ) → Fits e → to_entry (of_entry e rest) ≡ e
unfolding to_entry of_entry
to_entry-of_entry e rest f =
    let r3 = le 4 e.generation rest in
    let r2 = le 2 e.reserved r3 in
    let r1 = le 2 e.flags r2 in
    rw
      (
        unle-le 8 e.physical_block r1 f.block,
        skip-le 8 e.physical_block r1,
        unle-le 2 e.flags r2 f.flags,
        skip-le 2 e.flags r2,
        unle-le 2 e.reserved r3 f.reserved,
        skip-le 2 e.reserved r3,
        unle-le 4 e.generation rest f.generation,
      )
      refl

next-of_entry : (e : Entry) (rest : List ℕ) → next (of_entry e rest) ≡ rest
unfolding next of_entry
next-of_entry e rest =
    let r3 = le 4 e.generation rest in
    let r2 = le 2 e.reserved r3 in
    let r1 = le 2 e.flags r2 in
    rw
      (
        skip-le 8 e.physical_block r1,
        skip-le 2 e.flags r2,
        skip-le 2 e.reserved r3,
        skip-le 4 e.generation rest,
      )
      refl

-- The first `n` entries, and their bytes.
unfoldable pub decode : ℕ → List ℕ → List Entry
decode zero bytes = []
decode (suc n) bytes = to_entry bytes ∷ decode n (next bytes)

unfoldable pub encode : ℕ → List Entry → List ℕ
encode zero es = []
encode (suc n) [] = of_entry blank (encode n [])
encode (suc n) (e ∷ es) = of_entry e (encode n es)

pub decode-AllFit : (n : ℕ) (bytes : List ℕ) → AllFit (decode n bytes)
unfolding decode
decode-AllFit zero bytes j = blank-Fits
decode-AllFit (suc n) bytes zero = to_entry-Fits bytes
decode-AllFit (suc n) bytes (suc j) = decode-AllFit n (next bytes) j

length-of_entry : (e : Entry) (rest : List ℕ) → length (of_entry e rest) ≡ 16 + length rest
unfolding of_entry
length-of_entry e rest =
    let a = length-le 4 e.generation rest in
    let b = length-le 2 e.reserved (le 4 e.generation rest) in
    let c = length-le 2 e.flags (le 2 e.reserved (le 4 e.generation rest)) in
    let d =
      length-le 8 e.physical_block (le 2 e.flags (le 2 e.reserved (le 4 e.generation rest))) in
    omega (arith, a, b, c, d)

pub length-encode : (n : ℕ) (es : List Entry) → length (encode n es) ≡ n * 16
unfolding encode
length-encode zero es = refl
length-encode (suc n) [] =
    let h = length-of_entry blank (encode n []) in omega (arith, h, length-encode n [])
length-encode (suc n) (e ∷ es) =
    let h = length-of_entry e (encode n es) in omega (arith, h, length-encode n es)

pub decode-encode :
    (n : ℕ) (es : List Entry) → length es ≡ n → AllFit es → decode n (encode n es) ≡ es
unfolding decode encode
decode-encode zero [] h f = refl
decode-encode zero (e ∷ es) h f = absurd (omega arith)
decode-encode (suc n) [] h f = absurd (omega arith)
decode-encode (suc n) (e ∷ es) h f =
    rw (to_entry-of_entry e (encode n es) (f zero), next-of_entry e (encode n es))
      (ap (λ l. e ∷ l) (decode-encode n es (omega arith) (λ j. f (suc j))))
