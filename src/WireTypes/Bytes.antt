-- ===== src/WireTypes/Bytes.antt =====
-- The bytes of a number, and the number of its bytes.
use native.Mathlib.Nat.{pow-succ'}
use mathlib.Core.List.{reverse, reverse-cons, reverse-reverse}
use pensar.Base.{
  ℕ, zero, suc, ◌/◌, ◌^◌, ◌<◌, ◌≡◌, refl, ap, ap₂, ◌∙◌, List, [], ◌∷◌, length, arith,
  length-reverse,
}
use pensar.Base.Predicates.{All, All-append}
use pensar.WireTypes.{le_bytes, of_le_bytes, byteswap}

abbrev pub AreBytes : List ℕ → Type 0
AreBytes bs = All (λ b. b < 256) bs

pub of_le_bytes-le_bytes : (n v : ℕ) → v < 256 ^ n → of_le_bytes (le_bytes n v) ≡ v
unfolding le_bytes of_le_bytes
of_le_bytes-le_bytes zero v h = omega (arith, h)
of_le_bytes-le_bytes (suc n) v h =
    let smaller : v / 256 < 256 ^ n = omega (arith, pow-succ' 256 n) in
    omega (arith, of_le_bytes-le_bytes n (v / 256) smaller)

pub le_bytes-of_le_bytes :
    (n : ℕ) (bs : List ℕ) → length bs ≡ n → AreBytes bs → le_bytes n (of_le_bytes bs) ≡ bs
unfolding le_bytes of_le_bytes
le_bytes-of_le_bytes zero [] size h = refl
le_bytes-of_le_bytes zero (b ∷ bs) size h = absurd (omega arith)
le_bytes-of_le_bytes (suc n) [] size h = absurd (omega arith)
le_bytes-of_le_bytes (suc n) (b ∷ bs) size h =
    ap₂ ◌∷◌ (omega arith)
      (ap (le_bytes n) (omega arith) ∙ le_bytes-of_le_bytes n bs (omega arith) h.1)

pub le_bytes-AreBytes : (n v : ℕ) → AreBytes (le_bytes n v)
unfolding le_bytes
le_bytes-AreBytes zero v = tt
le_bytes-AreBytes (suc n) v = (omega arith, le_bytes-AreBytes n (v / 256))

pub length-le_bytes : (n v : ℕ) → length (le_bytes n v) ≡ n
unfolding le_bytes
length-le_bytes zero v = refl
length-le_bytes (suc n) v = ap suc (length-le_bytes n (v / 256))

pub length-reverse-le_bytes : (n v : ℕ) → length (reverse (le_bytes n v)) ≡ n
length-reverse-le_bytes n v = length-reverse (le_bytes n v) ∙ length-le_bytes n v

AreBytes-reverse : (bs : List ℕ) → AreBytes bs → AreBytes (reverse bs)
AreBytes-reverse [] h = tt
AreBytes-reverse (b ∷ bs) h =
    rw (reverse-cons b bs)
      (All-append (λ x. x < 256) (reverse bs) (b ∷ []) (AreBytes-reverse bs h.1) (h.0, tt))

-- The bytes of a swapped number are those of the number, turned around.
pub le_bytes-byteswap : (n v : ℕ) → le_bytes n (byteswap n v) ≡ reverse (le_bytes n v)
unfolding byteswap
le_bytes-byteswap n v =
    le_bytes-of_le_bytes n (reverse (le_bytes n v)) (length-reverse-le_bytes n v)
      (AreBytes-reverse (le_bytes n v) (le_bytes-AreBytes n v))

pub byteswap-byteswap : (n v : ℕ) → v < 256 ^ n → byteswap n (byteswap n v) ≡ v
unfolding byteswap
byteswap-byteswap n v h =
    ap (λ t. of_le_bytes (reverse t)) (le_bytes-byteswap n v)
    ∙ ap of_le_bytes (reverse-reverse (le_bytes n v))
    ∙ of_le_bytes-le_bytes n v h

of_le_bytes-lt : (n : ℕ) (bs : List ℕ) → length bs ≡ n → AreBytes bs → of_le_bytes bs < 256 ^ n
unfolding of_le_bytes
of_le_bytes-lt zero [] size h = omega arith
of_le_bytes-lt zero (b ∷ bs) size h = absurd (omega arith)
of_le_bytes-lt (suc n) [] size h = absurd (omega arith)
of_le_bytes-lt (suc n) (b ∷ bs) size h =
    omega (arith, pow-succ' 256 n, h.0, of_le_bytes-lt n bs (omega arith) h.1)

pub byteswap-lt : (n v : ℕ) → byteswap n v < 256 ^ n
unfolding byteswap
byteswap-lt n v =
    of_le_bytes-lt n (reverse (le_bytes n v)) (length-reverse-le_bytes n v)
      (AreBytes-reverse (le_bytes n v) (le_bytes-AreBytes n v))
