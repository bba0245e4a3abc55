-- ===== src/SortedList.antt =====
-- cpp/src/sorted_list.hpp: `SortedList`, a vector kept in the order of a comparator.
-- An iterator is the index that it points at, and `end ()` is the size.
-- `std::lower_bound` is the first index whose element does not compare below the value.
pub mod Order
pub mod Laws
pub mod Search
pub mod History
mod Examples
use pensar.Base.{
  ℕ, zero, suc, ◌-◌, Bool, true, false, ◌&&◌, not, Option, none, some, List, [], ◌∷◌, ◌++◌, ltb,
  ◌==◌, if◌then◌else◌, length, get_elem?, is_empty,
}
use pensar.Base.Outcome.{Outcome, done, throws, out_of_range, ◌>>=◌, map_done}

pub record SortedList {ℓ} (A : Type ℓ) : Type ℓ where
  pub items : List A
  pub unique : Bool
  pub comp : A → A → Bool

-- `validate_index` with its default `throws = true`.
pub validate_index : ℕ → ℕ → Outcome Bool
validate_index index size = if ltb index size then done true else throws out_of_range

module _ {ℓ} {A : Type ℓ} where
  pub lower_bound : (A → A → Bool) → List A → A → ℕ
  lower_bound comp [] value = 0
  lower_bound comp (x ∷ xs) value = if comp x value then suc (lower_bound comp xs value) else 0

  -- `std::vector::insert` and `erase` at an index.
  pub insert_at : ℕ → A → List A → List A
  insert_at i value [] = value ∷ []
  insert_at zero value (x ∷ xs) = value ∷ x ∷ xs
  insert_at (suc i) value (x ∷ xs) = x ∷ insert_at i value xs

  pub erase_at : ℕ → List A → List A
  erase_at i [] = []
  erase_at zero (x ∷ xs) = xs
  erase_at (suc i) (x ∷ xs) = x ∷ erase_at i xs

  -- `it != end () && !comp (*it, value) && !comp (value, *it)`
  pub hits : (A → A → Bool) → List A → ℕ → A → Bool
  hits comp xs it value = elim (get_elem? xs it) [
    | none ↦ false
    | some x ↦ not (comp x value) && not (comp value x)
  ]

  pub empty_list : Bool → (A → A → Bool) → SortedList A
  empty_list unique comp = record { items = []; unique = unique; comp = comp }

  pub set_unique : Bool → SortedList A → SortedList A
  set_unique unique l = record l { unique = unique }

  pub is_unique : SortedList A → Bool
  is_unique l = l.unique

  pub add : A → SortedList A → SortedList A × Bool
  unfolding lower_bound insert_at hits
  add value l =
      let it = lower_bound l.comp l.items value in
      if l.unique && hits l.comp l.items it value
      then (l, false)
      else (record l { items = insert_at it value l.items }, true)

  -- The constructors from an initializer list and from a range.
  add_all : List A → SortedList A → SortedList A
  add_all [] l = l
  add_all (x ∷ xs) l = add_all xs (add x l).0

  pub from_range : List A → Bool → (A → A → Bool) → SortedList A
  unfolding empty_list add_all
  from_range range unique comp = add_all range (empty_list unique comp)

  pub find : A → SortedList A → ℕ
  unfolding lower_bound hits
  find value l =
      let it = lower_bound l.comp l.items value in
      if hits l.comp l.items it value then it else length l.items

  pub size : SortedList A → ℕ
  size l = length l.items

  pub empty : SortedList A → Bool
  empty l = is_empty l.items

  pub clear : SortedList A → SortedList A
  clear l = record l { items = [] }

  pub remove : A → SortedList A → SortedList A × Bool
  unfolding find erase_at
  remove value l =
      let it = find value l in
      if it == length l.items then (l, false) else (record l { items = erase_at it l.items }, true)

  pub remove_at : ℕ → SortedList A → Outcome (SortedList A)
  unfolding validate_index erase_at size
  remove_at index l =
      validate_index index (size l) >>= λ _. done (record l { items = erase_at index l.items })

  -- What a read after a passed check gives; the check makes the second case unreachable.
  from_some : Option A → Outcome A
  from_some none = throws out_of_range
  from_some (some a) = done a

  -- `at` and `operator[]`, on the elements as values.
  pub at : ℕ → SortedList A → Outcome A
  unfolding validate_index from_some size
  at index l = validate_index index (size l) >>= λ _. from_some (get_elem? l.items index)

  pub contains : A → SortedList A → Bool
  unfolding find
  contains value l = not (find value l == length l.items)

  -- `last` and its alias `back`.
  pub last : SortedList A → Outcome A
  unfolding from_some empty
  last l =
      if empty l then throws out_of_range else from_some (get_elem? l.items (length l.items - 1))

  -- The text of the elements, in brackets, with ", " between them; `show` is their `<<`.
  to_s_from : (A → List ℕ) → Bool → List A → List ℕ
  to_s_from show first [] = b']' ∷ []
  to_s_from show first (x ∷ xs) =
      (if first then [] else b',' ∷ b' ' ∷ []) ++ show x ++ to_s_from show false xs

  pub to_s : (A → List ℕ) → SortedList A → List ℕ
  unfolding to_s_from
  to_s show l = b'[' ∷ to_s_from show true l.items
