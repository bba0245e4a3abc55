-- ===== src/SortedList/Order.antt =====
-- The order that `SortedList` keeps: what `std::strict_weak_order` asks of a comparator, and the
-- list predicates that follow from it.
use pensar.Base.{Bool, true, false, ◌≡◌, ◌⊎◌, List, [], ◌∷◌, arith}
use pensar.Base.Predicates.{All}

-- `std::strict_weak_order`: irreflexive, transitive, and with transitive incomparability, here
-- in its contrapositive form.
pub record IsStrictWeakOrder {ℓ} {A : Type ℓ} (comp : A → A → Bool) : Type ℓ where
  pub irrefl : (a : A) → comp a a ≡ false
  pub trans : (a b c : A) → comp a b ≡ true → comp b c ≡ true → comp a c ≡ true
  pub cotrans : (a b c : A) → comp a c ≡ true → (comp a b ≡ true) ⊎ (comp b c ≡ true)

module _ {ℓ} {A : Type ℓ} (comp : A → A → Bool) where
  -- No element compares below an earlier one.
  abbrev pub IsSorted : List A → Type 0
  IsSorted [] = Unit
  IsSorted (x ∷ xs) = All (λ y. comp y x ≡ false) xs × IsSorted xs

  -- Every element compares below all later ones.
  abbrev pub IsStrict : List A → Type 0
  IsStrict [] = Unit
  IsStrict (x ∷ xs) = All (λ y. comp x y ≡ true) xs × IsStrict xs

module _ {ℓ} {A : Type ℓ} {comp : A → A → Bool} (order : IsStrictWeakOrder comp) where
  pub comp_asymm : (a b : A) → comp a b ≡ true → comp b a ≡ false
  comp_asymm a b h = ground (arith, order.irrefl a, order.trans a b a)

  -- `y` is not below `x`, and `x` not below `v`: then `y` is not below `v`.
  pub not_below_trans : (x y v : A) → comp y x ≡ false → comp x v ≡ false → comp y v ≡ false
  not_below_trans x y v h k = ground (arith, order.cotrans y x v)

  -- `v` below `x`, and `y` not below `x`: then `v` is below `y`.
  pub below_trans : (x y v : A) → comp y x ≡ false → comp v x ≡ true → comp v y ≡ true
  below_trans x y v h k = ground (arith, order.cotrans v y x)

  -- `x` below `v`, and `y` not below `v`: then `x` is below `y`.
  pub below_not_below : (x y v : A) → comp x v ≡ true → comp y v ≡ false → comp x y ≡ true
  below_not_below x y v h k = ground (arith, order.cotrans x y v)
