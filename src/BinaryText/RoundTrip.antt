-- ===== src/BinaryText/RoundTrip.antt =====
-- Numbers written to a string and read from it.
use native.Mathlib.Nat.{pow-suc, div-div-eq-div-mul}
use pensar.Base.{
  ℕ, zero, suc, ◌+◌, ◌*◌, ◌/◌, ◌%◌, ◌^◌, ◌<◌, ◌≡◌, refl, sym, ap, ap₂, ◌∙◌, some, List, [], ◌∷◌,
  ◌++◌, length, length-append, drop, drop-append, arith,
}
use pensar.Base.Predicates.{All}
use pensar.WireTypes.{le_bytes, of_le_bytes}
use pensar.WireTypes.Bytes.{of_le_bytes-le_bytes}
use pensar.BinaryText.{
  push_bytes, binary_to_string, or_bytes, some_number, number_loop, string_to_binary,
}

-- The bytes that are pushed are those of the number, the lowest first.
push_bytes-le_bytes : (left i x : ℕ) → push_bytes left i x ≡ le_bytes left (x / 256 ^ i)
unfolding push_bytes le_bytes
push_bytes-le_bytes zero i x = refl
push_bytes-le_bytes (suc left) i x = ap (◌∷◌ (x / 256 ^ i % 256)) (
    push_bytes-le_bytes left (suc i) x
    ∙ ap (le_bytes left)
        (ap (λ m. x / m) (pow-suc 256 i) ∙ sym (div-div-eq-div-mul x (256 ^ i) 256)))

length-le_bytes : (n x : ℕ) → length (le_bytes n x) ≡ n
unfolding le_bytes
length-le_bytes zero x = refl
length-le_bytes (suc n) x = omega (arith, length-le_bytes n (x / 256))

shifted : (byte b o m : ℕ) → byte + b * m + o * (m * 256) ≡ byte + (b + 256 * o) * m
shifted byte b o m = grind arith

or_bytes-of_le_bytes :
    (left j byte : ℕ) (bs rest : List ℕ)
    → length bs ≡ left
    → or_bytes left j byte (bs ++ rest) ≡ some (byte + of_le_bytes bs * 256 ^ j)
unfolding or_bytes of_le_bytes
or_bytes-of_le_bytes zero j byte [] rest size = ap some (omega arith)
or_bytes-of_le_bytes zero j byte (b ∷ bs) rest size = absurd (omega arith)
or_bytes-of_le_bytes (suc left) j byte [] rest size = absurd (omega arith)
or_bytes-of_le_bytes (suc left) j byte (b ∷ bs) rest size =
    or_bytes-of_le_bytes left (suc j) (byte + b * 256 ^ j) bs rest (omega arith)
    ∙ ap some (
        ap (λ m. byte + b * 256 ^ j + of_le_bytes bs * m) (pow-suc 256 j)
        ∙ shifted byte b (of_le_bytes bs) (256 ^ j))

or_bytes-push_bytes :
    (size x : ℕ) (rest : List ℕ)
    → x < 256 ^ size
    → or_bytes size 0 0 (push_bytes size 0 x ++ rest) ≡ some x
or_bytes-push_bytes size x rest h =
    ap (λ bs. or_bytes size 0 0 (bs ++ rest))
      (push_bytes-le_bytes size 0 x ∙ ap (le_bytes size) (omega arith))
    ∙ or_bytes-of_le_bytes size 0 0 (le_bytes size x) rest (length-le_bytes size x)
    ∙ ap some (omega (arith, of_le_bytes-le_bytes size x h))

length-push_bytes : (left i x : ℕ) → length (push_bytes left i x) ≡ left
unfolding push_bytes
length-push_bytes zero i x = refl
length-push_bytes (suc left) i x = omega (arith, length-push_bytes left (suc i) x)

number_loop-step :
    (fuel size : ℕ) (s : List ℕ)
    → 0 < length s
    → number_loop (suc fuel) size s
      ≡ some_number (or_bytes size 0 0 s) (number_loop fuel size (drop size s))
unfolding number_loop
number_loop-step fuel size [] h = absurd (omega arith)
number_loop-step fuel size (c ∷ s) h = refl

number_loop-binary :
    (fuel size : ℕ) (xs : List ℕ)
    → 0 < size
    → All (λ x. x < 256 ^ size) xs
    → length (binary_to_string size xs) < fuel
    → number_loop fuel size (binary_to_string size xs) ≡ some xs
unfolding binary_to_string
number_loop-binary zero size xs h fits enough = absurd (omega arith)
number_loop-binary (suc fuel) size [] h fits enough = unfold number_loop in refl
number_loop-binary (suc fuel) size (x ∷ xs) h fits enough =
    let rest = binary_to_string size xs in
    let bytes = push_bytes size 0 x in
    let long : length (bytes ++ rest) ≡ size + length rest =
      omega (arith, length-append bytes rest, length-push_bytes size 0 x) in
    number_loop-step fuel size (bytes ++ rest) (omega (arith, long))
    ∙ ap₂ some_number (or_bytes-push_bytes size x rest fits.0) (
        ap (number_loop fuel size) (drop-append size bytes rest (length-push_bytes size 0 x))
        ∙ number_loop-binary fuel size xs h fits.1 (omega (arith, long)))

-- Numbers of one byte at least, each of which fits its bytes, are written to a string and read
-- back the same; the loops end, and no character behind the string is read.
pub string_to_binary-binary_to_string :
    (size : ℕ) (xs : List ℕ)
    → 0 < size
    → All (λ x. x < 256 ^ size) xs
    → string_to_binary size (binary_to_string size xs) ≡ some xs
unfolding string_to_binary
string_to_binary-binary_to_string size xs h fits =
    number_loop-binary (suc (length (binary_to_string size xs))) size xs h fits (omega arith)
