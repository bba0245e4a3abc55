-- ===== src/Dao/Filters.antt =====
-- What the database reads of the conditions that `AuditDAO::search` makes of its arguments.
use pensar.Base.{
  codes, ℕ, ◌≡◌, refl, false, some, List, [], ◌∷◌, ◌++◌, append_assoc, ◌==◌, is_empty,
}
use pensar.DbConnection.Quoting.{
  read_chars, read_literal, StartsElse, read_chars-end, read_chars-other,
}
use pensar.Dao.Audit.{condition, where_clause}

-- A text without a quote.
abbrev pub Unquoted : List ℕ → Type 0
Unquoted [] = Unit
Unquoted (c ∷ s) = ((c == 39) ≡ false) × Unquoted s

read_chars-quoted :
    (s rest : List ℕ)
    → Unquoted s
    → StartsElse rest
    → read_chars (s ++ (39 ∷ rest)) ≡ some (s, rest)
read_chars-quoted [] rest h k = read_chars-end rest k
read_chars-quoted (c ∷ s) rest h k =
    read_chars-other c (s ++ (39 ∷ rest)) s rest h.0 (read_chars-quoted s rest h.1 k)

-- The literal is read from behind a quote.
read_literal-quoted :
    (s rest : List ℕ)
    → Unquoted s
    → StartsElse rest
    → read_literal (39 ∷ (s ++ (39 ∷ rest))) ≡ some (s, rest)
unfolding read_literal
read_literal-quoted s rest h k = read_chars-quoted s rest h k

-- With four arguments that are not empty and have no quotes, the conditions are read as four string
-- constants, each of which is just its argument.
pub where_clause-read :
    (a b c d : List ℕ)
    → Unquoted a
    → Unquoted b
    → Unquoted c
    → Unquoted d
    → is_empty a ≡ false
    → is_empty b ≡ false
    → is_empty c ≡ false
    → is_empty d ≡ false
    → (w x y z : List ℕ) × (where_clause a b c d ≡ codes "WHERE 1=1 AND action = " ++ w)
      × (read_literal w ≡ some (a, codes " AND action_by = " ++ x))
      × (read_literal x ≡ some (b, codes " AND action_at >= " ++ y))
      × (read_literal y ≡ some (c, codes "::timestamptz AND action_at < " ++ z))
      × (read_literal z ≡ some (d, codes "::timestamptz"))
unfolding where_clause
where_clause-read a b c d qa qb qc qd na nb nc nd =
    let z = 39 ∷ (d ++ (39 ∷ codes "::timestamptz")) in
    let y = 39 ∷ (c ++ (39 ∷ (codes "::timestamptz AND action_at < " ++ z))) in
    let x = 39 ∷ (b ++ (39 ∷ (codes " AND action_at >= " ++ y))) in
    let w = 39 ∷ (a ++ (39 ∷ (codes " AND action_by = " ++ x))) in
    (
      w,
      x,
      y,
      z,
      rw (na, nb, nc, nd) (simp append_assoc),
      read_literal-quoted a (codes " AND action_by = " ++ x) qa refl,
      read_literal-quoted b (codes " AND action_at >= " ++ y) qb refl,
      read_literal-quoted c (codes "::timestamptz AND action_at < " ++ z) qc refl,
      read_literal-quoted d (codes "::timestamptz") qd refl,
    )

is_empty-append : (s : List ℕ) (e : ℕ) (rest : List ℕ) → is_empty (s ++ (39 ∷ e ∷ rest)) ≡ false
is_empty-append [] e rest = refl
is_empty-append (c ∷ s) e rest = refl

-- If the first argument has a quote, with another character behind it, the constant ends at that
-- quote, and the database reads the rest of the argument as the statement.
pub where_clause-injected :
    (s rest b c d : List ℕ) (e : ℕ)
    → Unquoted s
    → (e == 39) ≡ false
    → (w behind : List ℕ) × (where_clause (s ++ (39 ∷ e ∷ rest)) b c d
        ≡ codes "WHERE 1=1 AND action = " ++ w)
      × (read_literal w ≡ some (s, e ∷ (rest ++ behind)))
unfolding where_clause
where_clause-injected s rest b c d e h other =
    let others =
      condition (codes " AND action_by = '") b (codes "'")
      ++ (condition (codes " AND action_at >= '") c (codes "'::timestamptz")
          ++ condition (codes " AND action_at < '") d (codes "'::timestamptz")) in
    (
      39 ∷ (s ++ (39 ∷ e ∷ (rest ++ (39 ∷ others)))),
      39 ∷ others,
      rw (is_empty-append s e rest) (simp append_assoc),
      read_literal-quoted s (e ∷ (rest ++ (39 ∷ others))) h other,
    )
