-- ===== src/Tests/Database.antt =====
-- A database that meets the interface of src/db/mod.rs, for the examples: the rows of `dupes`, and the
-- documents with their flags.
use incrededup.Base.{
  ◌≡◌, ◌↔◌, inl, inr, refl, sym, subst, Bool, true, false, not, Option, none, some, arith, List, [],
  ◌∷◌, ◌++◌, Elem, Elem-append, Elem-filter, filter, contains, contains_iff, if◌then◌else◌, ◌==◌,
  ==-cases, Bool-cases, length,
}
use incrededup.Match.{DupeMatch}
use incrededup.UnionFind.{Uuid}
use incrededup.Db.{Database, set_flag}
use incrededup.Tests.Values.{bits}

abbrev pub Row : Type 0
Row = DupeMatch bits

abbrev pub Doc : Type 0
Doc = Uuid × Option Bool

abbrev pub Rows : Type 0
Rows = List Row × List Doc

unfoldable pub flag_of : List Doc → Uuid → Option (Option Bool)
flag_of [] x = none
flag_of ((id, flag) ∷ docs) x = let rest = flag_of docs x in if id == x then some flag else rest

unfoldable pub set_flags : Bool → List Uuid → List Doc → List Doc
set_flags b ids [] = []
set_flags b ids ((id, flag) ∷ docs) =
    (id, if contains ids id then some b else flag) ∷ set_flags b ids docs

abbrev is_true : Option (Option Bool) → Bool
is_true none = false
is_true (some none) = false
is_true (some (some b)) = b

pub set_flags-in :
    (b : Bool) (ids : List Uuid) (docs : List Doc) (x : Uuid)
    → Elem x ids
    → flag_of (set_flags b ids docs) x ≡ set_flag b (flag_of docs x)
unfolding flag_of set_flags
set_flags-in b ids [] x m = refl
set_flags-in b ids ((id, flag) ∷ docs) x m = elim (==-cases id x) [
  | inl (t, e) ↦
      let inside = (contains_iff ids id).1 (subst (λ y. Elem y ids) (sym e) m) in
      rw t (rw inside refl)
  | inr (f, n) ↦ rw f (set_flags-in b ids docs x m)
]

pub set_flags-out :
    (b : Bool) (ids : List Uuid) (docs : List Doc) (x : Uuid)
    → (Elem x ids → ⊥)
    → flag_of (set_flags b ids docs) x ≡ flag_of docs x
unfolding flag_of set_flags
set_flags-out b ids [] x m = refl
set_flags-out b ids ((id, flag) ∷ docs) x m = elim (==-cases id x) [
  | inl (t, e) ↦ elim (Bool-cases (contains ids id)) [
    | inl inside ↦ absurd (m (subst (λ y. Elem y ids) e ((contains_iff ids id).0 inside)))
    | inr outside ↦ rw t (rw outside refl)
  ]
  | inr (f, n) ↦ rw f (set_flags-out b ids docs x m)
]

is_true_iff : (o : Option (Option Bool)) → (is_true o ≡ true) ↔ (o ≡ some (some true))
is_true_iff none = (λ e. cc, λ e. cc)
is_true_iff (some none) = (λ e. cc, λ e. cc)
is_true_iff (some (some true)) = (λ e. refl, λ e. refl)
is_true_iff (some (some false)) = (λ e. cc, λ e. cc)

abbrev deleted : List Row → List Uuid → List Row
deleted rows ids = filter (λ (m : Row). not (contains ids m.child_id)) rows

pub Elem-deleted :
    (rows : List Row) (ids : List Uuid) (m : Row)
    → Elem m (deleted rows ids) ↔ (Elem m rows × (Elem m.child_id ids → ⊥))
Elem-deleted rows ids m = ground (
  arith,
  Elem-filter (λ (r : Row). not (contains ids r.child_id)) m rows,
  contains_iff ids m.child_id,
)

pub Elem-flagged :
    (docs : List Doc) (ids : List Uuid) (x : Uuid)
    → Elem x (filter (λ id. is_true (flag_of docs id)) ids)
      ↔ (Elem x ids × (flag_of docs x ≡ some (some true)))
Elem-flagged docs ids x =
    let (a, b) = Elem-filter (λ id. is_true (flag_of docs id)) x ids in
    (
      λ m. let (i, t) = a m in (i, (is_true_iff (flag_of docs x)).0 t),
      λ m. b (m.0, (is_true_iff (flag_of docs x)).1 m.1),
    )

pub Elem-selected :
    (rows : List Row) (ids : List Uuid) (m : Row)
    → Elem m (filter (λ (r : Row). contains ids r.child_id) rows)
      ↔ (Elem m rows × Elem m.child_id ids)
Elem-selected rows ids m =
    ground (
      arith,
      Elem-filter (λ (r : Row). contains ids r.child_id) m rows,
      contains_iff ids m.child_id,
    )

abbrev pub database : Database bits
database = record {
  Db = Rows;
  dupes = λ db. db.0;
  flag = λ db. flag_of db.1;
  delete_dupes = λ db ids. (deleted db.0 ids, db.1);
  insert_dupes = λ db ms. some (ms ++ db.0, db.1);
  update_flags = λ db b ids. ((db.0, set_flags b ids db.1), length ids);
  select_parents = λ db ids. filter (λ id. is_true (flag_of db.1 id)) ids;
  select_dupes = λ db ids. filter (λ (m : Row). contains ids m.child_id) db.0;
  dupes-delete = λ db ids m. Elem-deleted db.0 ids m;
  flag-delete = λ db ids x. refl;
  insert_fresh = λ db ms d fresh. ((ms ++ db.0, db.1), refl, λ m. Elem-append m ms db.0, λ x. refl);
  dupes-update = λ db b ids m. (λ k. k, λ k. k);
  flag-update_in = λ db b ids x m. set_flags-in b ids db.1 x m;
  flag-update_out = λ db b ids x m. set_flags-out b ids db.1 x m;
  Elem-select_parents = λ db ids x. Elem-flagged db.1 ids x;
  Elem-select_dupes = λ db ids m. Elem-selected db.0 ids m;
}
