-- ===== src/Db/Names/Laws.antt =====
-- The check of a table name in src/db/mod.rs against what a table name is.
use incrededup.Base.{
  ℕ, ◌≡◌, ◌≢◌, ◌↔◌, inl, inr, refl, sym, ap, ◌∙◌, subst, true, false, arith, List, [], ◌∷◌, ◌++◌,
  All, ==-cases, Bool-cases, Result, err, ok,
}
use incrededup.Db.Names.{
  Text, dot, on_head, all_follow, is_sql_identifier, split_dots, NameError, empty_name,
  not_identifiers, check_parts, validate_table_name, IsWordChar, IsIdentifier, IsTableName,
  one_part, dotted,
}

all_follow_iff : (cs : Text) → (all_follow cs ≡ true) ↔ All IsWordChar cs
unfolding all_follow
all_follow_iff [] = (λ e. tt, λ h. refl)
all_follow_iff (c ∷ cs) = ground (arith, all_follow_iff cs)

is_sql_identifier_iff : (part : Text) → (is_sql_identifier part ≡ true) ↔ IsIdentifier part
unfolding is_sql_identifier
is_sql_identifier_iff [] = (λ e. off e, λ h. absurd h)
  where
    off : false ≡ true → ⊥
    off e = cc
is_sql_identifier_iff (c ∷ cs) = ground (arith, all_follow_iff cs)

abbrev join_dots : List Text → Text
join_dots [] = []
join_dots (part ∷ []) = part
join_dots (part ∷ next ∷ parts) = part ++ 46 ∷ join_dots (next ∷ parts)

join-head : (c : ℕ) (p : Text) (ps : List Text) → join_dots ((c ∷ p) ∷ ps) ≡ c ∷ join_dots (p ∷ ps)
join-head c p [] = refl
join-head c p (q ∷ ps) = refl

-- The parts with dots between them are the text.
split-parts :
    (cs : Text)
    → (p : Text) × (ps : List Text) × (split_dots cs ≡ p ∷ ps) × (join_dots (p ∷ ps) ≡ cs)
unfolding split_dots
split-parts [] = ([], [], refl, refl)
split-parts (c ∷ cs) =
    let (p, ps, e, j) = split-parts cs in
    elim (==-cases c dot) [
      | inl (t, same) ↦
          ([], p ∷ ps, rw t (ap (λ l. [] ∷ l) e), ap (λ l. 46 ∷ l) j ∙ ap (λ d. d ∷ cs) (sym same))
      | inr (f, n) ↦ (c ∷ p, ps, rw f (ap (on_head c) e), join-head c p ps ∙ ap (λ l. c ∷ l) j)
    ]

refused : (r : Result NameError Unit) → r ≡ err not_identifiers → r ≡ ok tt → ⊥
refused r e f = cc

check_parts-first :
    (p : Text) (ps : List Text)
    → check_parts (p ∷ ps) ≡ ok tt
    → IsIdentifier p × (check_parts ps ≡ ok tt)
unfolding check_parts
check_parts-first p ps e = elim (Bool-cases (is_sql_identifier p)) [
  | inl t ↦ ((is_sql_identifier_iff p).0 t, rw t at e)
  | inr f ↦ absurd (refused (check_parts (p ∷ ps)) (rw f refl) e)
]

parts-IsTableName :
    (p : Text) (ps : List Text) → check_parts (p ∷ ps) ≡ ok tt → IsTableName (join_dots (p ∷ ps))
parts-IsTableName p [] e = one_part p (check_parts-first p [] e).0
parts-IsTableName p (q ∷ ps) e =
    let (i, rest) = check_parts-first p (q ∷ ps) e in
    dotted p (join_dots (q ∷ ps)) i (parts-IsTableName q ps rest)

abbrev HasNoDot : Text → Type 0
HasNoDot cs = All (λ c. c ≢ 46) cs

word-HasNoDot : (cs : Text) → All IsWordChar cs → HasNoDot cs
word-HasNoDot [] h = tt
word-HasNoDot (c ∷ cs) h = (ground (arith, h.0), word-HasNoDot cs h.1)

IsIdentifier-HasNoDot : (cs : Text) → IsIdentifier cs → HasNoDot cs
IsIdentifier-HasNoDot [] h = absurd h
IsIdentifier-HasNoDot (c ∷ cs) h = (ground (arith, h.0), word-HasNoDot cs h.1)

split_dots-word : (cs : Text) → HasNoDot cs → split_dots cs ≡ cs ∷ []
unfolding split_dots
split_dots-word [] h = refl
split_dots-word (c ∷ cs) h = elim (==-cases c dot) [
  | inl (t, same) ↦ absurd (h.0 same)
  | inr (f, n) ↦ rw f (ap (on_head c) (split_dots-word cs h.1))
]

split_dots-append :
    (cs rest : Text) → HasNoDot cs → split_dots (cs ++ 46 ∷ rest) ≡ cs ∷ split_dots rest
unfolding split_dots
split_dots-append [] rest h = refl
split_dots-append (c ∷ cs) rest h = elim (==-cases c dot) [
  | inl (t, same) ↦ absurd (h.0 same)
  | inr (f, n) ↦ rw f (ap (on_head c) (split_dots-append cs rest h.1))
]

check_parts-ok :
    (p : Text) (ps : List Text)
    → IsIdentifier p
    → check_parts ps ≡ ok tt
    → check_parts (p ∷ ps) ≡ ok tt
unfolding check_parts
check_parts-ok p ps i e = rw ((is_sql_identifier_iff p).1 i) e

IsTableName-split : (cs : Text) → IsTableName cs → check_parts (split_dots cs) ≡ ok tt
IsTableName-split cs (one_part part i) =
    ap check_parts (split_dots-word part (IsIdentifier-HasNoDot part i))
    ∙ check_parts-ok part [] i (unfold check_parts in refl)
IsTableName-split cs (dotted part rest i t) =
    ap check_parts (split_dots-append part rest (IsIdentifier-HasNoDot part i))
    ∙ check_parts-ok part (split_dots rest) i (IsTableName-split rest t)

IsTableName-nonempty : (cs : Text) → IsTableName cs → cs ≢ []
IsTableName-nonempty cs (one_part [] i) e = i
IsTableName-nonempty cs (one_part (c ∷ part) i) e = cc
IsTableName-nonempty cs (dotted [] rest i t) e = i
IsTableName-nonempty cs (dotted (c ∷ part) rest i t) e = cc

-- A table name passes the check exactly when it consists of identifiers with a dot between each
-- two, where an identifier is a letter or an underscore and then letters, digits and underscores.
pub validate_table_name-IsTableName :
    (name : Text) → (validate_table_name name ≡ ok tt) ↔ IsTableName name
unfolding validate_table_name
validate_table_name-IsTableName [] =
    (λ e. absurd (off _ refl e), λ t. absurd (IsTableName-nonempty [] t refl))
  where
    off : (r : Result NameError Unit) → r ≡ err empty_name → r ≡ ok tt → ⊥
    off r e f = cc
validate_table_name-IsTableName (c ∷ cs) =
    let (p, ps, e, j) = split-parts (c ∷ cs) in
    (
      λ h. subst IsTableName j (parts-IsTableName p ps (sym (ap check_parts e) ∙ h)),
      λ t. IsTableName-split (c ∷ cs) t,
    )
