-- ===== src/CArray.antt =====
-- cpp/src/array.hpp: `CArray`, an array of a fixed size. Elements are numbers, equal when their
-- bytes are. A comparison by `std::memcmp` that leaves the array is `none`.
pub mod Ranges
mod Examples
use pensar.Base.{
  ℕ, zero, suc, ◌+◌, ◌-◌, ◌%◌, ◌^◌, Bool, true, false, ◌&&◌, Option, none, some, List, [], ◌∷◌,
  ◌++◌, ltb, leb, ◌==◌, if◌then◌else◌, length, get_or, take, drop, replicate, min,
}
use pensar.Base.Outcome.{Outcome, done, throws, out_of_range}

-- The constructor from an initializer list: what fits is copied over zeroes.
pub of_list : ℕ → List ℕ → List ℕ
of_list size init = take size init ++ replicate (size - length init) 0

pub at : List ℕ → ℕ → Outcome ℕ
at array index =
    if leb (length array) index then throws out_of_range else done (get_or array index 0)

pub same_elements : List ℕ → List ℕ → Bool
same_elements [] [] = true
same_elements [] (y ∷ ys) = false
same_elements (x ∷ xs) [] = false
same_elements (x ∷ xs) (y ∷ ys) = x == y && same_elements xs ys

-- `std::memcmp` of `count` elements from a position of both arrays.
pub memcmp : ℕ → ℕ → List ℕ → List ℕ → Option Bool
unfolding same_elements
memcmp start count array other =
    if ltb (length array) (start + count)
    then none
    else some (same_elements (take count (drop start array)) (take count (drop start other)))

pub equal : List ℕ → List ℕ → Option Bool
unfolding memcmp
equal array other = memcmp 0 (length array) array other

pub compare_range : List ℕ → List ℕ → ℕ → Option Bool
unfolding memcmp
compare_range array other count =
    memcmp 0 (if ltb (length array) count then length array else count) array other

-- The overload with a start; the sum is one of `size_t`.
pub compare_range_from : List ℕ → List ℕ → ℕ → ℕ → Option Bool
unfolding memcmp
compare_range_from array other start count =
    if leb (length array) start
    then some false
    else if ltb (length array) ((start + count) % 2 ^ 64)
    then some false
    else memcmp start count array other

-- The index, or the message that there is none.
pub contains : List ℕ → ℕ → Option ℕ
contains [] element = none
contains (x ∷ xs) element =
    let later = contains xs element in
    if x == element then some 0 else elim later [ none ↦ none | some i ↦ some (suc i) ]

-- The first `count` elements are set; `fill` without a count sets all.
pub fill : List ℕ → ℕ → ℕ → List ℕ
fill array value count =
    let n = if ltb (length array) count then length array else count in
    replicate n value ++ drop n array
