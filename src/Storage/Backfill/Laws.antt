-- ===== src/Storage/Backfill/Laws.antt =====
-- `build_adjacency_index` of src/storage/mod.rs: from an index that is a part of the right one it
-- makes the whole of it.
use incrededup.Base.{
  suc, ◌≡◌, ◌≢◌, ◌⊎◌, inl, inr, refl, sym, ap, ◌∙◌, subst, true, Option, none, some, List, [], ◌∷◌,
  ◌++◌, leb, length, ==-cases, Bool-cases, Elem, Elem-append, Result, err, ok, ⊎_elim,
}
use incrededup.Base.Results.{◌>>=◌}
use incrededup.Match.{Float, MatchRecord}
use incrededup.Table.{Table}
use incrededup.UnionFind.{Uuid}
use incrededup.Storage.{Bytes, StoreError, adjacency_key, adjacency_value}
use incrededup.Storage.Codec.{adjacency_key_inj}
use incrededup.Storage.Matches.{
  MatchStore, read_entry, read_entries, is_adjacency_built, set_adjacency_built,
}
use incrededup.Storage.Matches.Edges.{Edges, Keyed, IsUuid, IsMatches, IsIndex, indexed}
use incrededup.Storage.Matches.Insert.{Represents, indexed_end, entries_self, entries_edge}
use incrededup.Storage.Matches.Read.{read-IsMatches}
use incrededup.Storage.Walk.Rows.{indexed-some}
use incrededup.Storage.Backfill.{
  flush_every, AdjacencyBuildStats, Builder, flushed, flush_rest, build_record, build_loop,
  build_adjacency_index, finish_build,
}
use incrededup.Storage.Backfill.Flush.{
  Belongs, IsPart, Present, Pending, Covered, IsBuilder, flushed-IsBuilder, flush_rest-IsBuilder,
}

module _ (F : Float) (M : Table Bytes Bytes) (m : Edges F) where
  record Built (r : MatchRecord F) (b b' : Builder M) : Type 0 where
    builder : IsBuilder F M m b'
    kept : (k : Bytes) → Pending F M m b k → Pending F M m b' k
    covered : Covered F M m (Pending F M m b') r

  -- The buffer of a record that is no self-edge.
  abbrev pushed : MatchRecord F → Builder M → Builder M
  pushed r b = record b {
    buffer =
        b.buffer
        ++ (adjacency_key r.child_id r.child_id r.parent_id, adjacency_value F r)
          ∷ (adjacency_key r.parent_id r.child_id r.parent_id, adjacency_value F r)
          ∷ [];
    edges_indexed = suc b.edges_indexed;
  }

  pushed-Built :
      (r : MatchRecord F) (b : Builder M)
      → m r.child_id r.parent_id ≡ some r
      → IsUuid F r.child_id
      → IsUuid F r.parent_id
      → r.child_id ≢ r.parent_id
      → IsBuilder F M m b
      → Built r b (pushed r b)
  pushed-Built r b edge hc hp differ h = record {
    builder = record {
      part = h.part;
      entries = λ e k. elim ((Elem-append e b.buffer _).0 k) [
        | inl old ↦ h.entries e old
        | inr (inl same) ↦ subst (Belongs F M m) (sym same) (belongs r.child_id hc (inl refl))
        | inr (inr (inl same)) ↦
            subst (Belongs F M m) (sym same) (belongs r.parent_id hp (inr refl))
        | inr (inr (inr none_left)) ↦ absurd none_left
      ];
    };
    kept = λ k p. elim p [
      | inl g ↦ inl g
      | inr (v, g) ↦ inr (v, (Elem-append (k, v) b.buffer _).1 (inl g))
    ];
    covered = λ x n end. inr (
      adjacency_value F r,
      (Elem-append _ b.buffer _).1 (
          inr (elim end [
            | inl same ↦
                inl (ap (λ y. (adjacency_key y r.child_id r.parent_id, adjacency_value F r)) same)
            | inr same ↦
                inr (
                  inl
                    (ap (λ y. (adjacency_key y r.child_id r.parent_id, adjacency_value F r)) same))
          ])),
    );
  }
    where
      belongs :
          (n : Uuid)
          → IsUuid F n
          → (n ≡ r.child_id) ⊎ (n ≡ r.parent_id)
          → Belongs F M m (adjacency_key n r.child_id r.parent_id, adjacency_value F r)
      belongs n hn end = (
        n,
        r.child_id,
        r.parent_id,
        hn,
        hc,
        hp,
        refl,
        ap (indexed F n r.child_id r.parent_id) edge
            ∙ indexed_end F M n r.child_id r.parent_id r differ end,
      )

  flushed-Built : (r : MatchRecord F) (b b' : Builder M) → Built r b b' → Built r b (flushed M b')
  flushed-Built r b b' h =
      let (q, f) = flushed-IsBuilder F M m b' h.builder in
      record {
        builder = q;
        kept = λ k p. inl (f k (h.kept k p));
        covered = λ differ n end. inl (f _ (h.covered differ n end));
      }

  build_record-Built :
      (r : MatchRecord F) (b : Builder M)
      → m r.child_id r.parent_id ≡ some r
      → IsUuid F r.child_id
      → IsUuid F r.parent_id
      → IsBuilder F M m b
      → Built r b (build_record M F r b)
  unfolding build_record
  build_record-Built r b edge hc hp h = elim (==-cases r.child_id r.parent_id) [
    | inl (t, same) ↦
        rw (entries_self F M r same, build_record)
          (record { builder = h; kept = λ k p. p; covered = λ x n end. absurd (x same) })
    | inr (t, differ) ↦
        let p = pushed-Built r b edge hc hp differ h in
        rw (entries_edge F M r differ, build_record)
          (elim (Bool-cases (leb flush_every (length (pushed r b).buffer))) [
            | inl t ↦ rw t (flushed-Built r b (pushed r b) p)
            | inr f ↦ rw f p
          ])
  ]

  record Looped (rs : List (MatchRecord F)) (b b' : Builder M) : Type 0 where
    builder : IsBuilder F M m b'
    kept : (k : Bytes) → Pending F M m b k → Pending F M m b' k
    covered : (r : MatchRecord F) → Elem r rs → Covered F M m (Pending F M m b') r

  abbrev Read : Type 0
  Read = Result StoreError (List (MatchRecord F))

  ok_inj : (xs ys : List (MatchRecord F)) → ◌≡◌ {A = Read} (ok xs) (ok ys) → xs ≡ ys
  ok_inj xs ys e = ap records e
    where
      records : Read → List (MatchRecord F)
      records (ok zs) = zs
      records (err error) = xs

  not_ok : (xs : List (MatchRecord F)) (e : StoreError) → ◌≡◌ {A = Read} (err e) (ok xs) → ⊥
  not_ok xs e h = cc

  read_cons :
      (e : Bytes × Bytes) (es : List (Bytes × Bytes)) (rs : List (MatchRecord F))
      → read_entries F M (e ∷ es) ≡ ok rs
      → (x : MatchRecord F) × (xs : List (MatchRecord F)) × (read_entry F M e ≡ ok x)
        × (read_entries F M es ≡ ok xs)
        × (rs ≡ x ∷ xs)
  unfolding read_entries
  read_cons e es rs h = first (read_entry F M e) refl h
    where
      rest :
          (x : MatchRecord F) (q : Read)
          → read_entry F M e ≡ ok x
          → read_entries F M es ≡ q
          → ◌≡◌ {A = Read} (do xs ← q; ok (x ∷ xs)) (ok rs)
          → (x : MatchRecord F) × (xs : List (MatchRecord F)) × (read_entry F M e ≡ ok x)
            × (read_entries F M es ≡ ok xs)
            × (rs ≡ x ∷ xs)
      rest x (ok xs) a b h = (x, xs, a, b, sym (ok_inj (x ∷ xs) rs h))
      rest x (err error) a b h = absurd (not_ok rs error h)

      first :
          (q : Result StoreError (MatchRecord F))
          → read_entry F M e ≡ q
          → ◌≡◌ {A = Read} (do x ← q; xs ← read_entries F M es; ok (x ∷ xs)) (ok rs)
          → (x : MatchRecord F) × (xs : List (MatchRecord F)) × (read_entry F M e ≡ ok x)
            × (read_entries F M es ≡ ok xs)
            × (rs ≡ x ∷ xs)
      first (ok x) a h = rest x (read_entries F M es) a refl h
      first (err error) a h = absurd (not_ok rs error h)

  -- The loop over entries that are read as edges ends, and every edge is in the index or about to be.
  build_loop-Looped :
      (es : List (Bytes × Bytes)) (rs : List (MatchRecord F)) (b : Builder M)
      → read_entries F M es ≡ ok rs
      → ((r : MatchRecord F)
          → Elem r rs
          → (m r.child_id r.parent_id ≡ some r) × IsUuid F r.child_id × IsUuid F r.parent_id)
      → IsBuilder F M m b
      → (b' : Builder M) × (build_loop M F es b ≡ (b', ok tt)) × Looped rs b b'
  unfolding read_entries build_loop
  build_loop-Looped [] rs b read edges h = (
    b,
    refl,
    record {
      builder = h;
      kept = λ k p. p;
      covered = λ r i. absurd (subst (Elem r) (sym (ok_inj [] rs read)) i);
    },
  )
  build_loop-Looped (e ∷ es) rs b read edges h =
      let (x, xs, first, rest, both) = read_cons e es rs read in
      let at = λ (r : MatchRecord F) (i : Elem r (x ∷ xs)). edges r (subst (Elem r) (sym both) i) in
      let (edge, hc, hp) = at x (inl refl) in
      let now = build_record-Built x b edge hc hp h in
      let (b', run, later) =
        build_loop-Looped es xs (build_record M F x b) rest (λ r i. at r (inr i)) now.builder in
      (
        b',
        rw (first, build_loop) run,
        record {
          builder = later.builder;
          kept = λ k p. later.kept k (now.kept k p);
          covered = λ r i. elim (subst (Elem r) both i) [
            | inl same ↦
                subst (Covered F M m (Pending F M m b')) (sym same)
                  (λ differ n end. later.kept _ (now.covered differ n end))
            | inr i ↦ later.covered r i
          ];
        },
      )

  -- A part of the index that has an entry for every end of every edge is the index.
  IsPart-IsIndex :
      (a : M.T)
      → IsPart F M m a
      → ((c p : Uuid) → Keyed F c p (m c p))
      → ((r : MatchRecord F)
          → m r.child_id r.parent_id ≡ some r
          → Covered F M m (Present F M m a) r)
      → IsIndex F M a m
  IsPart-IsIndex a part keyed covered = record {
    value = λ n c p hn hc hp. found n c p (M.get a (adjacency_key n c p)) refl hn hc hp;
    only = λ k v g. let (n, c, p, hn, hc, hp, at, value) = part k v g in (n, c, p, hn, hc, hp, at);
  }
    where
      absent :
          (n c p : Uuid) (o : Option Bytes)
          → M.get a (adjacency_key n c p) ≡ none
          → indexed F n c p (m c p) ≡ o
          → none ≡ o
      absent n c p none g e = refl
      absent n c p (some v) g e =
          let (r, edge, value, differ, end) = indexed-some F m n c p (m c p) v e in
          let (fits, (same_c, same_p)) = subst (Keyed F c p) edge (keyed c p) in
          let here : m r.child_id r.parent_id ≡ some r =
            ap (λ x. m x r.parent_id) same_c ∙ ap (m c) same_p ∙ edge in
          let (w, there) =
            covered r here (λ t. differ (sym same_c ∙ t ∙ same_p)) n
              (⊎_elim (λ t. inl (t ∙ sym same_c)) (λ t. inr (t ∙ sym same_p)) end) in
          let key : adjacency_key n r.child_id r.parent_id ≡ adjacency_key n c p =
            ap (λ x. adjacency_key n x r.parent_id) same_c ∙ ap (adjacency_key n c) same_p in
          let clash : ◌≡◌ {A = Option Bytes} none (some w) =
            sym g ∙ sym (ap (M.get a) key) ∙ there in
          absurd (apart w clash)
        where
          apart : (w : Bytes) → ◌≡◌ {A = Option Bytes} none (some w) → ⊥
          apart w e = cc

      found :
          (n c p : Uuid) (o : Option Bytes)
          → M.get a (adjacency_key n c p) ≡ o
          → IsUuid F n
          → IsUuid F c
          → IsUuid F p
          → M.get a (adjacency_key n c p) ≡ indexed F n c p (m c p)
      found n c p none g hn hc hp = g ∙ absent n c p (indexed F n c p (m c p)) g refl
      found n c p (some v) g hn hc hp =
          let (n', c', p', hn', hc', hp', at, value) = part (adjacency_key n c p) v g in
          let (x, y, z) = adjacency_key_inj n c p n' c' p' hn hc hp hn' hc' hp' at in
          g
          ∙ sym value
          ∙ ap (λ t. indexed F t c' p' (m c' p')) (sym x)
          ∙ ap (λ t. indexed F n t p' (m t p')) (sym y)
          ∙ ap (λ t. indexed F n c t (m c t)) (sym z)

  marked : (s : MatchStore F M) → is_adjacency_built F M (set_adjacency_built F M s) ≡ true
  unfolding is_adjacency_built set_adjacency_built
  marked s = refl

  abbrev start : MatchStore F M → Builder M
  start s = record { adjacency = s.adjacency; buffer = []; edges_indexed = 0; entries_written = 0 }

  build_run :
      (s : MatchStore F M) (b : Builder M)
      → build_loop M F (M.entries s.matches) (start s) ≡ (b, ok tt)
      → build_adjacency_index M F s ≡ (
        set_adjacency_built F M (record s { adjacency = (flush_rest M b).adjacency }),
        ok (record {
          edges_indexed = (flush_rest M b).edges_indexed;
          entries_written = (flush_rest M b).entries_written;
        }),
      )
  unfolding build_adjacency_index finish_build
  build_run s b run = ap (finish_build M F s) run

  -- In a store whose matches hold some edges and whose index is a part of theirs, empty or left by a
  -- build that was cut short, the build succeeds, the store then holds the edges in the matches and
  -- in the index, and the index is marked as built.
  pub build_adjacency_index-Represents :
      (s : MatchStore F M)
      → IsMatches F M s.matches m
      → IsPart F M m s.adjacency
      → (s' : MatchStore F M) × (stats : AdjacencyBuildStats) × (build_adjacency_index M F s
          ≡ (s', ok stats))
        × Represents F M s' m
        × (is_adjacency_built F M s' ≡ true)
  unfolding build_adjacency_index
  build_adjacency_index-Represents s h part =
      let (rs, read, all, size, once) = read-IsMatches F M s.matches m h in
      let edges : (r : MatchRecord F)
          → Elem r rs
          → (m r.child_id r.parent_id ≡ some r) × IsUuid F r.child_id × IsUuid F r.parent_id =
        λ r i.
          let edge = (all r).0 i in
          let (fits, j) =
            subst (Keyed F r.child_id r.parent_id) edge (h.keyed r.child_id r.parent_id) in
          (edge, fits.child, fits.parent) in
      let (b, run, looped) =
        build_loop-Looped (M.entries s.matches) rs (start s) read edges
          (record { part = part; entries = λ e i. absurd i }) in
      let (whole, there) = flush_rest-IsBuilder F M m b looped.builder in
      (
        set_adjacency_built F M (record s { adjacency = (flush_rest M b).adjacency }),
        record {
          edges_indexed = (flush_rest M b).edges_indexed;
          entries_written = (flush_rest M b).entries_written;
        },
        build_run s b run,
        unfold set_adjacency_built in
            record {
              matches = h;
              index =
                  IsPart-IsIndex (flush_rest M b).adjacency whole h.keyed (λ r edge differ n end.
                    there _ (looped.covered r ((all r).1 edge) differ n end));
            },
        marked (record s { adjacency = (flush_rest M b).adjacency }),
      )
