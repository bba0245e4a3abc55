-- ===== src/Text/Examples.antt =====
-- Runs of the string functions, and their theorems at concrete strings.
use pensar.Base.{ℕ, suc, ◌≡◌, refl, true, false, some, List, [], ◌∷◌, arith, length}
use pensar.Text.{split, replace_loop, insert_grouping_char, remove_double_spaces}
use pensar.Base.Predicates.{All}
use pensar.Text.Fields.{IsField, join, join-split}
use pensar.Text.Replace.{occurs, replace_loop_ends}
use pensar.Text.Spaces.{collapse, remove_double_spaces-collapse}
use pensar.Text.{is_digit, only_digits}
use pensar.Text.Numbers.{pos, negsuc, to_string, read_decimal, read_decimal-to_string}
use pensar.Text.Grouping.{grouped, insert_grouping_char-grouped}

-- ` a, b,`
abbrev list : List ℕ
list = 32 ∷ b'a' ∷ b',' ∷ 32 ∷ b'b' ∷ b',' ∷ []

abbrev million : List ℕ
million = b'1' ∷ b'2' ∷ b'3' ∷ b'4' ∷ b'5' ∷ b'6' ∷ b'7' ∷ []

abbrev spaced : List ℕ
spaced = b'a' ∷ 32 ∷ 32 ∷ 32 ∷ b'b' ∷ []

abbrev two : List ℕ
two = 32 ∷ 32 ∷ []

abbrev x_alone : List ℕ
x_alone = b'x' ∷ []

trimmed_fields : split list b',' true false ≡ (b'a' ∷ []) ∷ (b'b' ∷ []) ∷ []
unfolding split
trimmed_fields = refl

grouped_million :
    insert_grouping_char million b','
    ≡ b'1' ∷ b',' ∷ b'2' ∷ b'3' ∷ b'4' ∷ b',' ∷ b'5' ∷ b'6' ∷ b'7' ∷ []
unfolding insert_grouping_char
grouped_million = refl

join-split_example :
    (join b',' (split list b',' false true) ≡ list)
    × All (IsField b',') (split list b',' false true)
join-split_example = join-split list b','

replace_loop_ends_example :
    (t : List ℕ) × (replace_loop 6 two x_alone spaced ≡ some t) × (occurs two t ≡ false)
replace_loop_ends_example = replace_loop_ends 6 two x_alone spaced (omega arith) (omega arith)

remove_double_spaces-collapse_example :
    remove_double_spaces 2 (suc (length spaced)) spaced ≡ some (collapse spaced)
remove_double_spaces-collapse_example = remove_double_spaces-collapse spaced

insert_grouping_char-grouped_example : insert_grouping_char million b',' ≡ grouped b',' million
insert_grouping_char-grouped_example = insert_grouping_char-grouped million b','

grouped_number :
    to_string (pos 1234567) true b','
    ≡ b'1' ∷ b',' ∷ b'2' ∷ b'3' ∷ b'4' ∷ b',' ∷ b'5' ∷ b'6' ∷ b'7' ∷ []
unfolding to_string insert_grouping_char
grouped_number = refl

-- -5
two_minus_signs : to_string (negsuc 4) false b',' ≡ b'-' ∷ b'-' ∷ b'5' ∷ []
unfolding to_string
two_minus_signs = refl

read_decimal-to_string_example :
    read_decimal 0 (only_digits (to_string (pos 1234567) true b',')) ≡ 1234567
unfolding is_digit
read_decimal-to_string_example = read_decimal-to_string 1234567 b',' true refl
