-- ===== src/ByteOrder/Swaps.antt =====
-- The swaps of one value turn its bytes around.
use mathlib.Core.List.{reverse, reverse-cons, reverse-append}
use pensar.Base.{
  ℕ, zero, suc, ◌+◌, ◌-◌, ◌/◌, ◌%◌, ◌^◌, ◌<◌, ◌≡◌, refl, sym, ap, ap₂, ◌∙◌, some, List, [], ◌∷◌,
  ◌++◌, append_assoc, length, get_elem?, set, length-append, arith,
}
use pensar.ByteOrder.{swap, swap_with, swap_loop, maybe_then}

get_elem?-middle : (p q : List ℕ) (x : ℕ) → get_elem? (p ++ (x ∷ q)) (length p) ≡ some x
get_elem?-middle [] q x = refl
get_elem?-middle (a ∷ p) q x = get_elem?-middle p q x

set-middle : (p q : List ℕ) (x v : ℕ) → set (p ++ (x ∷ q)) (length p) v ≡ p ++ (v ∷ q)
set-middle [] q x v = refl
set-middle (a ∷ p) q x v = ap (◌∷◌ a) (set-middle p q x v)

-- A second element behind the first.
further : (p m q : List ℕ) (x y : ℕ) → p ++ (x ∷ (m ++ (y ∷ q))) ≡ (p ++ (x ∷ m)) ++ (y ∷ q)
further p m q x y = sym (append_assoc p (x ∷ m) (y ∷ q))

length-further : (p m : List ℕ) (x : ℕ) → length (p ++ (x ∷ m)) ≡ length p + suc (length m)
length-further p m x = length-append p (x ∷ m)

swap-middle :
    (p m q : List ℕ) (x y : ℕ)
    → swap (length p) (length p + suc (length m)) (p ++ (x ∷ (m ++ (y ∷ q))))
      ≡ some (p ++ (y ∷ (m ++ (x ∷ q))))
unfolding swap swap_with
swap-middle p m q x y =
    rw (swap, get_elem?-middle p (m ++ (y ∷ q)) x, last)
      (ap some
        (ap (λ t. set t (length p + suc (length m)) x) (set-middle p (m ++ (y ∷ q)) x y) ∙ written))
  where
    last : get_elem? (p ++ (x ∷ (m ++ (y ∷ q)))) (length p + suc (length m)) ≡ some y
    last = rw (further p m q x y, sym (length-further p m x)) (get_elem?-middle (p ++ (x ∷ m)) q y)

    written :
        set (p ++ (y ∷ (m ++ (y ∷ q)))) (length p + suc (length m)) x ≡ p ++ (y ∷ (m ++ (x ∷ q)))
    written =
        rw (further p m q y y, further p m q y x, sym (length-further p m y))
          (set-middle (p ++ (y ∷ m)) q y x)

-- A list with an element ends with one.
last_of : (m : List ℕ) → 0 < length m → (l : List ℕ) × (y : ℕ) × (m ≡ l ++ (y ∷ []))
last_of [] h = elim h [ ]
last_of (x ∷ []) h = ([], x, refl)
last_of (x ∷ z ∷ m) h = let (l, y, e) = last_of (z ∷ m) (omega arith) in (x ∷ l, y, ap (◌∷◌ x) e)

reverse_short : (m : List ℕ) → length m < 2 → reverse m ≡ m
reverse_short [] h = refl
reverse_short (x ∷ []) h = refl
reverse_short (x ∷ y ∷ m) h = absurd (omega arith)

reverse_ends : (m : List ℕ) (x y : ℕ) → reverse (x ∷ (m ++ (y ∷ []))) ≡ y ∷ (reverse m ++ (x ∷ []))
reverse_ends m x y =
    reverse-cons x (m ++ (y ∷ [])) ∙ ap (λ t. t ++ (x ∷ [])) (reverse-append m (y ∷ []))

swap-ends :
    (i j n : ℕ) (p m q : List ℕ) (x y : ℕ)
    → i + j ≡ length p
    → i + n ≡ (length p + suc (suc (length m))) + j
    → i + n < 2 ^ 64
    → swap (i + j) (((((i + 2 ^ 64) - j) + n) - 1) % 2 ^ 64) (p ++ (x ∷ (m ++ (y ∷ q))))
      ≡ some (p ++ (y ∷ (m ++ (x ∷ q))))
swap-ends i j n p m q x y at stop bound =
    ap₂ (λ lo hi. swap lo hi (p ++ (x ∷ (m ++ (y ∷ q))))) at (omega arith) ∙ swap-middle p m q x y

-- The swaps of a value: `p` stands before what is left to turn around, `q` behind it.
pub swap_loop-middle :
    (left i j n : ℕ) (p m q : List ℕ)
    → left ≡ length m / 2
    → i + j ≡ length p
    → i + n ≡ (length p + length m) + j
    → i + n < 2 ^ 64
    → swap_loop left i j n (p ++ (m ++ q)) ≡ some (p ++ (reverse m ++ q))
unfolding swap_loop
swap_loop-middle zero i j n p m q half at stop bound =
    ap (λ t. some (p ++ (t ++ q))) (sym (reverse_short m (omega arith)))
swap_loop-middle (suc left) i j n p [] q half at stop bound = absurd (omega arith)
swap_loop-middle (suc left) i j n p (x ∷ m') q half at stop bound =
    let (m, y, e) = last_of m' (omega arith) in
    let size : length m' ≡ suc (length m) = omega (arith, ap length e, length-append m (y ∷ [])) in
    ap (λ t. swap_loop (suc left) i j n (p ++ (x ∷ t)))
      (ap (λ t. t ++ q) e ∙ append_assoc m (y ∷ []) q)
    ∙ ap (λ t. maybe_then t (swap_loop left i (suc j) n))
        (swap-ends i j n p m q x y at (omega arith) bound)
    ∙ ap (swap_loop left i (suc j) n) (sym (append_assoc p (y ∷ []) (m ++ (x ∷ q))))
    ∙ swap_loop-middle left i (suc j) n (p ++ (y ∷ [])) m (x ∷ q) (omega arith)
        (omega (arith, length-append p (y ∷ []))) (omega (arith, length-append p (y ∷ []))) bound
    ∙ ap some (
        append_assoc p (y ∷ []) (reverse m ++ (x ∷ q))
        ∙ ap (λ t. p ++ t)
            (sym (
              ap (λ t. t ++ q) (ap (λ t. reverse (x ∷ t)) e ∙ reverse_ends m x y)
              ∙ append_assoc (y ∷ reverse m) (x ∷ []) q)))
