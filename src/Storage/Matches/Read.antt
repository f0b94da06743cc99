-- ===== src/Storage/Matches/Read.antt =====
-- `MatchStore::iter` of src/storage/mod.rs: every entry is read, and the records are the edges that
-- the store holds.
use incrededup.Base.{
  Distinct, suc, ◌≡◌, ◌↔◌, inl, inr, refl, sym, ap, ◌∙◌, subst, Option, none, some, List, [], ◌∷◌,
  Elem, length, Result, ok, err,
}
use incrededup.Match.{Float, MatchRecord}
use incrededup.Table.{Table}
use incrededup.UnionFind.{Uuid}
use incrededup.Storage.{Bytes, StoreError, match_key, serialize_record, deserialize_record}
use incrededup.Storage.Codec.{Fits, child_id-match_key, deserialize_record-serialize_record}
use incrededup.Storage.Matches.{MatchStore, read_entry, read_entries, iter, scanned}
use incrededup.Storage.Matches.Edges.{Edges, Keyed, stored, IsMatches}
use incrededup.Storage.Matches.Insert.{Represents}

-- No record is there twice.
abbrev pub IsUnrepeated : (F : Float) → List (MatchRecord F) → Type 0
IsUnrepeated F rs = Distinct (λ (r : MatchRecord F). r) rs

module _ (F : Float) (M : Table Bytes Bytes) where
  abbrev entry_of : MatchRecord F → Bytes × Bytes
  entry_of r = (match_key r.child_id r.parent_id, serialize_record F r)

  read_entry-entry_of : (r : MatchRecord F) → Fits F r → read_entry F M (entry_of r) ≡ ok r
  unfolding read_entry
  read_entry-entry_of r h =
      rw (child_id-match_key r.child_id r.parent_id h.child)
        (deserialize_record-serialize_record F r h)

  value_of : MatchRecord F → Result StoreError (MatchRecord F) → MatchRecord F
  value_of d (ok x) = x
  value_of d (err e) = d

  ok_inj : {x y : MatchRecord F} → ◌≡◌ {A = Result StoreError (MatchRecord F)} (ok x) (ok y) → x ≡ y
  unfolding value_of
  ok_inj {x} e = ap (value_of x) e

  -- Records under one edge that are stored alike are one record.
  pub serialize_record_inj :
      (a b : MatchRecord F)
      → Fits F a
      → Fits F b
      → a.child_id ≡ b.child_id
      → serialize_record F a ≡ serialize_record F b
      → a ≡ b
  serialize_record_inj a b ha hb same e =
      let both : ok a ≡ ok b =
        sym (deserialize_record-serialize_record F a ha)
        ∙ ap (deserialize_record F a.child_id) e
        ∙ ap (λ c. deserialize_record F c (serialize_record F b)) same
        ∙ deserialize_record-serialize_record F b hb in
      ok_inj both

  read_entries_lem :
      (es : List (Bytes × Bytes))
      → ((e : Bytes × Bytes) → Elem e es → (r : MatchRecord F) × Fits F r × (e ≡ entry_of r))
      → (rs : List (MatchRecord F)) × (read_entries F M es ≡ ok rs)
        × ((r : MatchRecord F) → Elem r rs ↔ (Fits F r × Elem (entry_of r) es))
        × (length rs ≡ length es)
        × (Distinct (λ (e : Bytes × Bytes). e.0) es → IsUnrepeated F rs)
  unfolding read_entries
  read_entries_lem [] h = ([], refl, λ r. (λ m. absurd m, λ m. absurd m.1), refl, λ d. tt)
  read_entries_lem (e ∷ es) h =
      let (x, fit, at) = h e (inl refl) in
      let (rs, run, all, size, once) = read_entries_lem es (λ d m. h d (inr m)) in
      let first : read_entry F M e ≡ ok x = ap (read_entry F M) at ∙ read_entry-entry_of x fit in
      (
        x ∷ rs,
        rw (first, run) refl,
        λ r. (
          λ m. elim m [
            | inl same ↦
                subst (λ y. Fits F y × Elem (entry_of y) (e ∷ es)) (sym same) (fit, inl (sym at))
            | inr k ↦ let (a, b) = (all r).0 k in (a, inr b)
          ],
          λ k. elim k.1 [
            | inl same ↦
                let both : ok r ≡ ok x =
                  sym (read_entry-entry_of r k.0) ∙ ap (read_entry F M) same ∙ first in
                inl (ok_inj both)
            | inr m ↦ inr ((all r).1 (k.0, m))
          ],
        ),
        ap suc size,
        λ d. (
          λ y k same. d.0 (entry_of y) ((all y).0 k).1 (
              ap (λ (z : Bytes × Bytes). z.0) at
              ∙ ap (λ (z : MatchRecord F). match_key z.child_id z.parent_id) same),
          once d.1,
        ),
      )

  entries-stored :
      (table : M.T) (m : Edges F) (e : Bytes × Bytes)
      → IsMatches F M table m
      → Elem e (M.entries table)
      → (r : MatchRecord F) × Fits F r × (e ≡ entry_of r)
  entries-stored table m (k, v) h found =
      let got = (M.Elem-entries table k v).0 found in
      let (c, p, hc, hp, at) = h.only k v got in
      let here : stored F (m c p) ≡ some v =
        sym (h.value c p hc hp) ∙ ap (M.get table) (sym at) ∙ got in
      go c p at (m c p) (h.keyed c p) here
    where
      go :
          (c p : Uuid)
          → k ≡ match_key c p
          → (o : Option (MatchRecord F)) → Keyed F c p o
          → stored F o ≡ some v
          → (r : MatchRecord F) × Fits F r × ((k, v) ≡ entry_of r)
      go c p at none keyed e = absurd (nothing e)
        where
          nothing : ◌≡◌ {A = Option Bytes} none (some v) → ⊥
          nothing e = cc
      go c p at (some r) (fit, j) e =
          let same : serialize_record F r ≡ v = cc in
          let key : k ≡ match_key r.child_id r.parent_id =
            at ∙ ap (λ a. match_key a p) (sym j.0) ∙ ap (match_key r.child_id) (sym j.1) in
          (r, fit, rw (key, same) refl)

  stored-edge :
      (table : M.T) (m : Edges F) (r : MatchRecord F)
      → IsMatches F M table m
      → (Fits F r × Elem (entry_of r) (M.entries table)) ↔ (m r.child_id r.parent_id ≡ some r)
  stored-edge table m r h = (
    λ k.
        let got = (M.Elem-entries table _ _).0 k.1 in
        in_edges k.0 (m r.child_id r.parent_id) (h.keyed r.child_id r.parent_id)
          (sym (h.value r.child_id r.parent_id k.0.child k.0.parent) ∙ got),
    λ e.
        let (fit, j) = subst (Keyed F r.child_id r.parent_id) e (h.keyed r.child_id r.parent_id) in
        (
          fit,
          (M.Elem-entries table _ _).1
              (h.value r.child_id r.parent_id fit.child fit.parent ∙ ap (stored F) e),
        ),
  )
    where
      in_edges :
          Fits F r
          → (o : Option (MatchRecord F)) → Keyed F r.child_id r.parent_id o
          → stored F o ≡ some (serialize_record F r)
          → o ≡ some r
      in_edges fit none k e = cc
      in_edges fit (some b) (fits, j) e =
          let same : serialize_record F b ≡ serialize_record F r = cc in
          ap some (serialize_record_inj b r fits fit j.0 same)

  pub read-IsMatches :
      (table : M.T) (m : Edges F)
      → IsMatches F M table m
      → (rs : List (MatchRecord F)) × (read_entries F M (M.entries table) ≡ ok rs)
        × ((r : MatchRecord F) → Elem r rs ↔ (m r.child_id r.parent_id ≡ some r))
        × (length rs ≡ length (M.entries table))
        × IsUnrepeated F rs
  read-IsMatches table m h =
      let (rs, run, all, size, once) =
        read_entries_lem (M.entries table) (λ e found. entries-stored table m e h found) in
      (
        rs,
        run,
        λ r.
            let there = stored-edge table m r h in
            (λ k. there.0 ((all r).0 k), λ e. (all r).1 (there.1 e)),
        size,
        once (M.distinct-entries table),
      )

  pub read-Represents :
      (s : MatchStore F M) (m : Edges F)
      → Represents F M s m
      → (rs : List (MatchRecord F)) × (read_entries F M (M.entries s.matches) ≡ ok rs)
        × ((r : MatchRecord F) → Elem r rs ↔ (m r.child_id r.parent_id ≡ some r))
        × (length rs ≡ length (M.entries s.matches))
        × IsUnrepeated F rs
  read-Represents s m h = read-IsMatches s.matches m h.matches

  -- In a store that holds some edges, `iter` succeeds, counts one scan, and lists exactly the records
  -- of these edges.
  pub iter-Represents :
      (s : MatchStore F M) (m : Edges F)
      → Represents F M s m
      → (rs : List (MatchRecord F)) × (iter F M s ≡ (scanned F M s, ok rs))
        × ((r : MatchRecord F) → Elem r rs ↔ (m r.child_id r.parent_id ≡ some r))
  unfolding iter
  iter-Represents s m h =
      let (rs, run, all, size, once) = read-Represents s m h in (rs, rw run refl, all)
