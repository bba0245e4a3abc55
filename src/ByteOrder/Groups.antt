-- ===== src/ByteOrder/Groups.antt =====
-- `convert` turns each value of a span around.
use pensar.ByteOrder.Swaps.{swap_loop-middle}
use pensar.ByteOrder.Guards.{only_endian_differs_comm, convert-loop}
use mathlib.Core.List.{reverse, reverse-reverse, flatten}
use pensar.Base.{
  length-reverse, ℕ, zero, suc, ◌+◌, ◌-◌, ◌/◌, ◌%◌, ◌^◌, ◌≤◌, ◌<◌, ◌≡◌, refl, sym, ap, ap₂, ◌∙◌,
  true, some, List, [], ◌∷◌, ◌++◌, map, append_assoc, length, length-append, arith,
}
use pensar.Base.Predicates.{All}
use pensar.ByteOrder.{ByteOrder, only_endian_differs, swap_loop, converted, convert_loop, convert}

convert_loop_past :
    (fuel i e n : ℕ) (bytes : List ℕ)
    → e < i
    → convert_loop (suc fuel) i e n bytes ≡ converted bytes
unfolding convert_loop
convert_loop_past fuel i e n bytes past = ground arith

convert_loop_step :
    (fuel i e n : ℕ) (bytes bytes' : List ℕ)
    → i ≤ e
    → swap_loop (n / 2) i 0 n bytes ≡ some bytes'
    → convert_loop (suc fuel) i e n bytes ≡ convert_loop fuel (i + n) e n bytes'
unfolding convert_loop
convert_loop_step fuel i e n bytes bytes' inside swapped = rw swapped (ground arith)

-- The loop over the values: `p` was turned around, and a tail shorter than a value is left.
convert_loop-groups :
    (fuel i e n : ℕ) (p : List ℕ) (gs : List (List ℕ)) (tail : List ℕ)
    → 1 < n
    → All (λ g. length g ≡ n) gs
    → length tail < n
    → length gs < fuel
    → i ≡ length p
    → e + n ≡ length p + length (flatten gs ++ tail)
    → (e + n) + n < 2 ^ 64
    → convert_loop fuel i e n (p ++ (flatten gs ++ tail))
      ≡ converted (p ++ (flatten (map reverse gs) ++ tail))
unfolding flatten
convert_loop-groups zero i e n p gs tail wide sizes short enough at stop bound =
    absurd (omega arith)
convert_loop-groups (suc fuel) i e n p [] tail wide sizes short enough at stop bound =
    convert_loop_past fuel i e n (p ++ tail) (omega arith)
convert_loop-groups (suc fuel) i e n p (g ∷ gs) tail wide sizes short enough at stop bound =
    ap (λ t. convert_loop (suc fuel) i e n (p ++ t)) (first gs g)
    ∙ convert_loop_step fuel i e n (p ++ (g ++ rest)) (p ++ (reverse g ++ rest))
        (omega (arith, total, sizes.0))
        (swap_loop-middle (n / 2) i 0 n p g rest (omega (arith, total, sizes.0))
          (omega (arith, total, sizes.0)) (omega (arith, total, sizes.0))
          (omega (arith, total, sizes.0)))
    ∙ ap (convert_loop fuel (i + n) e n) (sym (append_assoc p (reverse g) rest))
    ∙ convert_loop-groups fuel (i + n) e n (p ++ reverse g) gs tail wide sizes.1 short
        (omega (arith, total, sizes.0)) (omega (arith, grown, total)) (omega (arith, grown, total))
        bound
    ∙ ap converted (append_assoc p (reverse g) (flatten (map reverse gs) ++ tail))
    ∙ ap (λ t. converted (p ++ t)) (sym (first (map reverse gs) (reverse g)))
  where
    rest : List ℕ
    rest = flatten gs ++ tail

    first : (hs : List (List ℕ)) (h : List ℕ) → flatten (h ∷ hs) ++ tail ≡ h ++ (flatten hs ++ tail)
    first hs h = append_assoc h (flatten hs) tail

    grown : length (p ++ reverse g) ≡ length p + n
    grown = omega (arith, length-append p (reverse g), length-reverse g, sizes.0)

    total : length (flatten (g ∷ gs) ++ tail) ≡ n + length rest
    total = ap length (first gs g) ∙ length-append g rest ∙ ap (λ t. t + length rest) sizes.0

convert_values :
    (n : ℕ) (gs : List (List ℕ)) (tail : List ℕ) (from to : ByteOrder)
    → 1 < n
    → All (λ h. length h ≡ n) gs
    → length tail < n
    → n ≤ length (flatten gs ++ tail)
    → length (flatten gs ++ tail) + n < 2 ^ 64
    → length gs ≤ length (flatten gs ++ tail)
    → only_endian_differs from to ≡ true
    → convert (flatten gs ++ tail) n from to ≡ converted (flatten (map reverse gs) ++ tail)
convert_values n gs tail from to wide sizes short fits bound enough differs =
    convert-loop n (flatten gs ++ tail) from to wide (omega arith) differs
    ∙ convert_loop-groups (suc (length (flatten gs ++ tail))) 0
        (((length (flatten gs ++ tail) + 2 ^ 64) - n) % 2 ^ 64) n [] gs tail wide sizes short
        (omega arith) refl (omega arith) (omega arith)

length-flatten :
    (n : ℕ) (gs : List (List ℕ))
    → 1 < n
    → All (λ h. length h ≡ n) gs
    → length gs ≤ length (flatten gs)
unfolding flatten
length-flatten n [] wide sizes = omega arith
length-flatten n (g ∷ gs) wide sizes =
    omega (arith, length-append g (flatten gs), sizes.0, length-flatten n gs wide sizes.1)

length-turned : (gs : List (List ℕ)) → length (flatten (map reverse gs)) ≡ length (flatten gs)
unfolding flatten
length-turned [] = refl
length-turned (g ∷ gs) = omega (
  arith,
  length-append g (flatten gs),
  length-append (reverse g) (flatten (map reverse gs)),
  length-reverse g,
  length-turned gs,
)

turned_sizes :
    (n : ℕ) (gs : List (List ℕ))
    → All (λ h. length h ≡ n) gs
    → All (λ h. length h ≡ n) (map reverse gs)
turned_sizes n [] sizes = tt
turned_sizes n (g ∷ gs) sizes = (length-reverse g ∙ sizes.0, turned_sizes n gs sizes.1)

turned_back : (gs : List (List ℕ)) → map reverse (map reverse gs) ≡ gs
turned_back [] = refl
turned_back (g ∷ gs) = ap₂ ◌∷◌ (reverse-reverse g) (turned_back gs)

length-map-reverse : (gs : List (List ℕ)) → length (map reverse gs) ≡ length gs
length-map-reverse [] = refl
length-map-reverse (g ∷ gs) = ap suc (length-map-reverse gs)

-- A span of `n`-byte values, with a tail shorter than a value or with none, converted between two
-- byte orders that differ in their endianness only, has the bytes of each value turned around and
-- the tail as it was; and the conversion back gives the span again.
pub convert-groups :
    (n : ℕ) (g : List ℕ) (gs : List (List ℕ)) (tail : List ℕ) (from to : ByteOrder)
    → 1 < n
    → All (λ h. length h ≡ n) (g ∷ gs)
    → length tail < n
    → length (flatten (g ∷ gs) ++ tail) + n < 2 ^ 64
    → only_endian_differs from to ≡ true
    → (convert (flatten (g ∷ gs) ++ tail) n from to
        ≡ converted (flatten (map reverse (g ∷ gs)) ++ tail))
      × (convert (flatten (map reverse (g ∷ gs)) ++ tail) n to from
          ≡ converted (flatten (g ∷ gs) ++ tail))
unfolding flatten
convert-groups n g gs tail from to wide sizes short bound differs = (
  convert_values n (g ∷ gs) tail from to wide sizes short (omega (arith, size, first, sizes.0))
      bound (omega (arith, size, many)) differs,
  convert_values n (map reverse (g ∷ gs)) tail to from wide (turned_sizes n (g ∷ gs) sizes) short
        (omega (arith, turned, size, first, sizes.0)) (omega (arith, turned, size))
        (omega (arith, turned, size, many, length-map-reverse (g ∷ gs)))
        (only_endian_differs_comm to from ∙ differs)
      ∙ ap (λ t. converted (flatten t ++ tail)) (turned_back (g ∷ gs)),
)
  where
    size : length (flatten (g ∷ gs) ++ tail) ≡ length (flatten (g ∷ gs)) + length tail
    size = length-append (flatten (g ∷ gs)) tail

    first : length (flatten (g ∷ gs)) ≡ length g + length (flatten gs)
    first = length-append g (flatten gs)

    many : length (g ∷ gs) ≤ length (flatten (g ∷ gs))
    many = length-flatten n (g ∷ gs) wide sizes

    turned :
        length (flatten (map reverse (g ∷ gs)) ++ tail) ≡ length (flatten (g ∷ gs)) + length tail
    turned =
        length-append (flatten (map reverse (g ∷ gs))) tail
        ∙ ap (λ t. t + length tail) (length-turned (g ∷ gs))
