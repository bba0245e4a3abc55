-- ===== src/ByteOrder/Outside.antt =====
-- `convert` of a span that is shorter than one value.
use pensar.ByteOrder.Guards.{convert-loop}
use pensar.Base.{
  Option-cases, get_elem?-ge, none, ℕ, zero, suc, ◌+◌, ◌-◌, ◌/◌, ◌%◌, ◌^◌, ◌≤◌, ◌<◌, ◌≡◌, refl, ap,
  ◌∙◌, true, List, length, get_elem?, arith, inl, inr,
}
use pensar.ByteOrder.{
  ByteOrder, only_endian_differs, swap, swap_with, swap_loop, outside_span, maybe_then,
  convert_loop, convert,
}

swap-outside : (lo hi : ℕ) (bytes : List ℕ) → length bytes ≤ hi → swap lo hi bytes ≡ none
unfolding swap swap_with
swap-outside lo hi bytes past =
    rw (get_elem?-ge bytes hi past) (elim (Option-cases (get_elem? bytes lo)) [
      | inl none_at ↦ rw none_at refl
      | inr (a, some_at) ↦ rw some_at refl
    ])

swap_loop-outside :
    (half n : ℕ) (bytes : List ℕ)
    → 0 < half
    → length bytes < n
    → n < 2 ^ 64
    → swap_loop half 0 0 n bytes ≡ none
unfolding swap_loop
swap_loop-outside zero n bytes some_left short bound = elim some_left [ ]
swap_loop-outside (suc left) n bytes some_left short bound =
    ap (λ t. maybe_then t (swap_loop left 0 1 n))
      (swap-outside 0 ((((0 + 2 ^ 64) - 0) + n - 1) % 2 ^ 64) bytes (omega arith))

convert_loop_outside :
    (fuel i e n : ℕ) (bytes : List ℕ)
    → i ≤ e
    → swap_loop (n / 2) i 0 n bytes ≡ none
    → convert_loop (suc fuel) i e n bytes ≡ outside_span
unfolding convert_loop
convert_loop_outside fuel i e n bytes inside swapped = rw swapped (ground arith)

-- A span of two bytes or more that is shorter than one value: the first swap is outside it.
pub convert_outside :
    (n : ℕ) (bytes : List ℕ) (from to : ByteOrder)
    → 1 < length bytes
    → length bytes < n
    → n < 2 ^ 64
    → only_endian_differs from to ≡ true
    → convert bytes n from to ≡ outside_span
convert_outside n bytes from to two short bound differs =
    convert-loop n bytes from to (omega arith) two differs
    ∙ convert_loop_outside (length bytes) 0 (((length bytes + 2 ^ 64) - n) % 2 ^ 64) n bytes
        (omega arith) (swap_loop-outside (n / 2) n bytes (omega arith) short bound)
