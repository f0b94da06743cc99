-- ===== src/Db/Names.antt =====
-- src/db/mod.rs: the check of a table name. A text is the list of its
-- characters, as code points.
pub mod Laws
use incrededup.Base.{
  ℕ, ◌≤◌, ◌≡◌, ◌≢◌, ◌↔◌, ◌⊎◌, inl, inr, refl, sym, ap, ◌∙◌, subst, Bool, true, false, ◌&&◌, ◌||◌,
  arith, List, [], ◌∷◌, ◌++◌, All, if◌then◌else◌, ◌==◌, ==-cases, Bool-cases, leb, Result, err, ok,
}

abbrev pub Text : Type 0
Text = List ℕ

-- `'_'` and `'.'`
abbrev underscore : ℕ
underscore = 95

abbrev dot : ℕ
dot = 46

abbrev is_ascii_alphabetic : ℕ → Bool
is_ascii_alphabetic c = (leb 65 c && leb c 90) || (leb 97 c && leb c 122)

abbrev is_ascii_alphanumeric : ℕ → Bool
is_ascii_alphanumeric c = is_ascii_alphabetic c || (leb 48 c && leb c 57)

abbrev may_start : ℕ → Bool
may_start c = c == underscore || is_ascii_alphabetic c

abbrev may_follow : ℕ → Bool
may_follow c = c == underscore || is_ascii_alphanumeric c

unfoldable pub all_follow : Text → Bool
all_follow [] = true
all_follow (c ∷ cs) = may_follow c && all_follow cs

unfoldable pub is_sql_identifier : Text → Bool
unfolding all_follow
is_sql_identifier [] = false
is_sql_identifier (first ∷ chars) = may_start first && all_follow chars

-- `split('.')`: one part more than there are dots.
abbrev on_head : ℕ → List Text → List Text
on_head c [] = (c ∷ []) ∷ []
on_head c (part ∷ parts) = (c ∷ part) ∷ parts

unfoldable pub split_dots : Text → List Text
split_dots [] = [] ∷ []
split_dots (c ∷ cs) = let rest = split_dots cs in if c == dot then [] ∷ rest else on_head c rest

pub data NameError : Type 0 where
  empty_name : NameError
  not_identifiers : NameError

unfoldable pub check_parts : List Text → Result NameError Unit
unfolding is_sql_identifier
check_parts [] = ok tt
check_parts (part ∷ parts) =
    let rest = check_parts parts in if is_sql_identifier part then rest else err not_identifiers

unfoldable pub validate_table_name : Text → Result NameError Unit
unfolding check_parts split_dots
validate_table_name [] = err empty_name
validate_table_name (c ∷ cs) = check_parts (split_dots (c ∷ cs))

-- An identifier, by the ranges of its characters.
abbrev IsLetter : ℕ → Type 0
IsLetter c = (65 ≤ c) × (c ≤ 90) ⊎ (97 ≤ c) × (c ≤ 122) ⊎ (c ≡ 95)

abbrev IsWordChar : ℕ → Type 0
IsWordChar c = IsLetter c ⊎ (48 ≤ c) × (c ≤ 57)

abbrev pub IsIdentifier : Text → Type 0
IsIdentifier [] = ⊥
IsIdentifier (c ∷ cs) = IsLetter c × All IsWordChar cs

-- Identifiers with a dot between each two.
pub data IsTableName : Text → Type 0 where
  one_part : (part : Text) → IsIdentifier part → IsTableName part
  dotted :
      (part rest : Text) → IsIdentifier part → IsTableName rest → IsTableName (part ++ 46 ∷ rest)
