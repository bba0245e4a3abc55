-- ===== src/Dao/Sql.antt =====
-- The part of SQL that the statements of PersonDAO are written in: what a text says, read from its
-- characters, and the values of its expressions.
use Prim.Native.String.{String}
pub mod Persons
use pensar.Base.{
  codes, ℕ, zero, suc, ◌==◌, leb, Bool, true, false, ◌&&◌, ◌||◌, Option, none, some, List, [], ◌∷◌,
  is_empty, if◌then◌else◌, length,
}
use pensar.Dao.{Binding, Value, long_value, int_value, text_value, double_value, ◌>>=◌}

-- A word, or another character alone.
abbrev pub Token : Type 0
Token = List ℕ

unfoldable pub same : List ℕ → List ℕ → Bool
same [] [] = true
same [] (y ∷ ys) = false
same (x ∷ xs) [] = false
same (x ∷ xs) (y ∷ ys) = (x == y) && same xs ys

is_word_char : ℕ → Bool
is_word_char c =
    (leb b'a' c && leb c b'z')
    || ((leb b'A' c && leb c b'Z') || ((leb b'0' c && leb c b'9') || c == b'_'))

starts_word : List ℕ → Bool
unfolding is_word_char
starts_word [] = false
starts_word (c ∷ s) = is_word_char c

-- A character before the tokens behind it, the first of which goes on with the character's word or
-- does not.
put_char : ℕ → Bool → List Token → List Token
put_char c true (t ∷ ts) = (c ∷ t) ∷ ts
put_char c true [] = (c ∷ []) ∷ []
put_char c false ts = (c ∷ []) ∷ ts

-- Spaces part words, and are left out.
unfoldable pub tokens : List ℕ → List Token
unfolding is_word_char starts_word put_char
tokens [] = []
tokens (c ∷ s) =
    let rest = tokens s in
    if c == 32 then rest else put_char c (is_word_char c && starts_word s) rest

-- A bound name, as it is or with the empty text made NULL.
pub data Expression : Type 0 where
  plain nullable : List ℕ → Expression

-- An item of a select list: a column, as it is or with NULL made the empty text.
pub data Item : Type 0 where
  column coalesced : List ℕ → Item

pub data Statement : Type 0 where
  insert_into : List ℕ → List (List ℕ × Expression) → Statement
  select_from : List Item → List ℕ → List ℕ → Statement
  update_set : List ℕ → List (List ℕ × Expression) → List ℕ → Statement

-- A value read from the start of some tokens, and the tokens behind it.
abbrev Parse : Type 0 → Type 0
Parse A = List Token → Option (A × List Token)

expect : String → List Token → Option (List Token)
unfolding same codes
expect word [] = none
expect word (t ∷ ts) = if same t (codes word) then some ts else none

expect_all : List String → List Token → Option (List Token)
unfolding expect
expect_all [] ts = some ts
expect_all (w ∷ ws) ts = expect w ts >>= expect_all ws

-- The tokens behind a word, if it stands there, and else the same tokens.
skip : List String → List Token → List Token
unfolding expect_all
skip words ts = elim (expect_all words ts) [ none ↦ ts | some rest ↦ rest ]

name : Parse Token
name [] = none
name (t ∷ ts) = some (t, ts)

-- `:name`, or `NULLIF(:name,'')`; a cast to a date keeps the value.
expression : Parse Expression
unfolding expect expect_all skip name
expression ts = elim (expect ":" ts) [
  | some rest ↦ name rest >>= λ n. some (plain n.0, skip (":" ∷ ":" ∷ "date" ∷ []) n.1)
  | none ↦ expect_all ("NULLIF" ∷ "(" ∷ ":" ∷ []) ts >>= λ rest. name rest >>= λ n.
      expect_all ("," ∷ "'" ∷ "'" ∷ ")" ∷ []) n.1 >>= λ more.
      some (nullable n.0, skip (":" ∷ ":" ∷ "date" ∷ []) more)
]

assignment : Parse (Token × Expression)
unfolding expect name expression
assignment ts =
    name ts >>= λ n. expect "=" n.1 >>= λ rest. expression rest >>= λ v. some ((n.0, v.0), v.1)

-- `name AS name` with one name, or `COALESCE(name,'') AS name`, where a cast to a text keeps the value.
item : Parse Item
unfolding expect expect_all skip name
item ts = elim (expect_all ("COALESCE" ∷ "(" ∷ []) ts) [
  | none ↦ name ts >>= λ n. some (column n.0, n.1)
  | some rest ↦ name rest >>= λ n.
      expect_all ("," ∷ "'" ∷ "'" ∷ ")" ∷ "AS" ∷ []) (skip (":" ∷ ":" ∷ "text" ∷ []) n.1)
      >>= λ more. name more >>= λ n'. if same n.0 n'.0 then some (coalesced n.0, n'.1) else none
]

-- What an item adds to a list, and the list goes on behind a comma.
listed : {A : Type 0} → (Parse A) → ℕ → Parse (List A)
unfolding expect
listed one zero ts = none
listed one (suc fuel) ts = one ts >>= λ a. elim (expect "," a.1) [
  | none ↦ some (a.0 ∷ [], a.1)
  | some rest ↦ listed one fuel rest >>= λ more. some (a.0 ∷ more.0, more.1)
]

paired : List Token → List Expression → Option (List (Token × Expression))
paired [] [] = some []
paired [] (v ∷ vs) = none
paired (n ∷ ns) [] = none
paired (n ∷ ns) (v ∷ vs) = paired ns vs >>= λ rest. some ((n, v) ∷ rest)

ended : {A : Type 0} → A → List Token → Option A
ended a [] = some a
ended a (t ∷ ts) = none

read_insert : List Token → Option Statement
unfolding expect_all name expression listed paired ended
read_insert ts = expect_all ("INSERT" ∷ "INTO" ∷ []) ts >>= λ r₁. name r₁ >>= λ table.
    expect_all ("(" ∷ []) table.1 >>= λ r₂. listed name (length r₂) r₂ >>= λ names.
    expect_all (")" ∷ "VALUES" ∷ "(" ∷ []) names.1 >>= λ r₃.
    listed expression (length r₃) r₃ >>= λ values.
    expect_all (")" ∷ "RETURNING" ∷ "id" ∷ []) values.1 >>= λ r₄.
    paired names.0 values.0 >>= λ pairs. ended (insert_into table.0 pairs) r₄

read_select : List Token → Option Statement
unfolding expect_all name item listed ended
read_select ts = expect_all ("SELECT" ∷ []) ts >>= λ r₁. listed item (length r₁) r₁ >>= λ items.
    expect_all ("FROM" ∷ []) items.1 >>= λ r₂. name r₂ >>= λ table.
    expect_all ("WHERE" ∷ "id" ∷ "=" ∷ ":" ∷ []) table.1 >>= λ r₃.
    name r₃ >>= λ key. ended (select_from items.0 table.0 key.0) key.1

read_update : List Token → Option Statement
unfolding expect_all name assignment listed ended
read_update ts = expect_all ("UPDATE" ∷ []) ts >>= λ r₁. name r₁ >>= λ table.
    expect_all ("SET" ∷ []) table.1 >>= λ r₂. listed assignment (length r₂) r₂ >>= λ pairs.
    expect_all ("WHERE" ∷ "id" ∷ "=" ∷ ":" ∷ []) pairs.1 >>= λ r₃. name r₃ >>= λ key.
    expect_all ("RETURNING" ∷ "id" ∷ []) key.1 >>= ended (update_set table.0 pairs.0 key.0)

-- The statement that a text is, if it is one of these.
unfoldable pub read_statement : List ℕ → Option Statement
unfolding tokens read_insert read_select read_update
read_statement text = elim (read_insert (tokens text)) [
  | some s ↦ some s
  | none ↦ elim (read_select (tokens text)) [ some s ↦ some s | none ↦ read_update (tokens text) ]
]

-- The columns of a row by their names; `none` is NULL.
abbrev pub Columns : Type 0
Columns = List ℕ → Option (List ℕ)

-- The text that is bound to a name.
unfoldable pub bound_text : List Binding → List ℕ → Option (List ℕ)
unfolding same codes
bound_text [] n = none
bound_text ((m, text_value t) ∷ rest) n = if same (codes m) n then some t else bound_text rest n
bound_text ((m, long_value v) ∷ rest) n = bound_text rest n
bound_text ((m, int_value v) ∷ rest) n = bound_text rest n
bound_text ((m, double_value v) ∷ rest) n = bound_text rest n

-- The `long long` that is bound to a name.
unfoldable pub bound_number : List Binding → List ℕ → Option ℕ
unfolding same codes
bound_number [] n = none
bound_number ((m, long_value v) ∷ rest) n = if same (codes m) n then some v else bound_number rest n
bound_number ((m, text_value t) ∷ rest) n = bound_number rest n
bound_number ((m, int_value v) ∷ rest) n = bound_number rest n
bound_number ((m, double_value v) ∷ rest) n = bound_number rest n

abbrev pub null_if_empty : Option (List ℕ) → Option (List ℕ)
null_if_empty none = none
null_if_empty (some t) = if is_empty t then none else some t

unfoldable pub value_of : Expression → List Binding → Option (List ℕ)
unfolding bound_text
value_of (plain n) bindings = bound_text bindings n
value_of (nullable n) bindings = null_if_empty (bound_text bindings n)

-- A row whose columns are given values, and which else is as before.
unfoldable pub assign : List (List ℕ × Expression) → List Binding → Columns → Columns
unfolding value_of same
assign [] bindings old c = old c
assign ((n, v) ∷ rest) bindings old c =
    if same n c then value_of v bindings else assign rest bindings old c

-- What is read of an item: NULL cannot be read as a text.
unfoldable pub shown : Item → Columns → Option (List ℕ)
shown (column n) columns = columns n
shown (coalesced n) columns = elim (columns n) [ none ↦ some [] | some t ↦ some t ]
