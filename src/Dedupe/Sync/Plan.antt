-- ===== src/Dedupe/Sync/Plan.antt =====
-- What the sync of src/dedupe/mod.rs plans to write: the members of its three lists.
use incrededup.Base.{
  ◌≡◌, ◌↔◌, ◌⊎◌, inl, inr, refl, Bool, true, false, ◌||◌, not, Option, none, some, arith, List, [],
  Elem, ==-cases, ap, Elem-filter, Elem-sort_by, filter, contains, contains_iff, leb, Bool-cases,
}
use incrededup.Match.{Float, DupeMatch}
use incrededup.Table.{Table}
use incrededup.UnionFind.{Uuid}
use incrededup.Storage.Scan.{to_set}
use incrededup.Storage.Scan.Reach.{Elem-to_set}
use incrededup.Dedupe.Sync.{
  is_some, is_some_of, assignments_requiring_write, child_marks_to_apply, parent_marks_to_apply,
}

pub Elem-child_marks :
    (child_ids new_doc_set existing : List Uuid) (x : Uuid)
    → Elem x (child_marks_to_apply child_ids new_doc_set existing)
      ↔ (Elem x child_ids × (Elem x new_doc_set ⊎ Elem x existing))
unfolding child_marks_to_apply
Elem-child_marks child_ids new_doc_set existing x = ground (
  arith,
  Elem-filter (λ id. contains new_doc_set id || contains existing id) x child_ids,
  contains_iff new_doc_set x,
  contains_iff existing x,
)

is_some_iff : {A : Type 0} (o : Option A) → (is_some o ≡ true) ↔ ((a : A) × (o ≡ some a))
is_some_iff none = (λ e. absurd (off e), λ h. absurd (apart h.0 h.1))
  where
    off : false ≡ true → ⊥
    off e = cc

    apart : {A : Type 0} (a : A) → none ≡ some a → ⊥
    apart a e = cc
is_some_iff (some a) = (λ e. (a, refl), λ h. refl)

module _ (P : Table Uuid Uuid) where
  pub Elem-parent_marks :
      (parent_ids new_doc_ids child_ids : List Uuid) (existing : P.T) (x : Uuid)
      → Elem x (parent_marks_to_apply P parent_ids new_doc_ids child_ids existing) ↔ (
          Elem x parent_ids × ((p : Uuid) × (P.get existing x ≡ some p))
          ⊎ Elem x new_doc_ids × (Elem x child_ids → ⊥))
  unfolding parent_marks_to_apply
  Elem-parent_marks parent_ids new_doc_ids child_ids existing x =
      let news = filter (λ id. not (contains child_ids id)) new_doc_ids in
      let olds = filter (λ id. is_some (P.get existing id)) parent_ids in
      ground (
        arith,
        Elem-sort_by leb x (to_set olds (to_set news [])),
        Elem-to_set olds (to_set news []) x,
        Elem-to_set news [] x,
        Elem-filter (λ id. not (contains child_ids id)) x new_doc_ids,
        Elem-filter (λ id. is_some (P.get existing id)) x parent_ids,
        contains_iff child_ids x,
        is_some_iff (P.get existing x),
      )

  module _ (F : Float) where
    clash : true ≡ false → ⊥
    clash e = cc

    -- An assignment is written, or the document is old and has this parent already.
    pub assignments-cases :
        (resolved : List (DupeMatch F)) (new_doc_set : List Uuid) (existing : P.T) (m : DupeMatch F)
        → Elem m resolved
        → Elem m (assignments_requiring_write P F resolved new_doc_set existing)
          ⊎ (P.get existing m.child_id ≡ some m.parent_id)
    unfolding assignments_requiring_write
    assignments-cases resolved new_doc_set existing m i =
        let test = λ (a : DupeMatch F).
          contains new_doc_set a.child_id
          || not (is_some_of (P.get existing a.child_id) a.parent_id) in
        elim (Bool-cases (test m)) [
          | inl t ↦ inl ((Elem-filter test m resolved).1 (i, t))
          | inr f ↦ inr (held (contains new_doc_set m.child_id) (P.get existing m.child_id) f)
        ]
      where
        held :
            (b : Bool) (o : Option Uuid)
            → b || not (is_some_of o m.parent_id) ≡ false
            → o ≡ some m.parent_id
        held true o f = absurd (clash f)
        held false none f = absurd (clash f)
        held false (some p) f = elim (==-cases p m.parent_id) [
          | inl (t, e) ↦ ap some e
          | inr (t, n) ↦ absurd (clash (rw t at f))
        ]

    pub assignments_requiring_write-Elem :
        (resolved : List (DupeMatch F)) (new_doc_set : List Uuid) (existing : P.T) (m : DupeMatch F)
        → Elem m (assignments_requiring_write P F resolved new_doc_set existing)
        → Elem m resolved
    unfolding assignments_requiring_write
    assignments_requiring_write-Elem resolved new_doc_set existing m i =
        ((Elem-filter
            (λ (a : DupeMatch F).
              contains new_doc_set a.child_id
              || not (is_some_of (P.get existing a.child_id) a.parent_id))
            m resolved).0
          i).0
