-- ===== src/SyncMode/Stops.antt =====
-- Runs of `run_sync_mode` in src/main.rs that are stopped, and what is known of the state that they
-- leave.
use incrededup.Base.{
  ◌∷◌, append_assoc, ℕ, ◌+◌, ◌<◌, ◌≡◌, ◌↔◌, ◌⊎◌, inl, inr, refl, sym, ap, ◌∙◌, subst, arith, List,
  [], ◌++◌, Elem, Elem-append, Distinct, Distinct-append, length, length-append, take, drop, concat,
  concat-chunks, drop-append_at, Result,
}
use incrededup.Match.{Float, DupeMatch}
use incrededup.Table.{Table}
use incrededup.Storage.{Bytes}
use incrededup.Storage.Progress.{
  not_started, writing_dupes, SyncField, SyncProgress, get_sync_progress,
}
use incrededup.Storage.Progress.Laws.{IsProgress, IsU64}
use incrededup.Db.{Database, DbError, write_dupes}
use incrededup.Db.Children.{child_of}
use incrededup.Db.Rows.{Replaced, Replaced-nil, Replaced-trans, write_dupes-Replaced}
use incrededup.SyncMode.{ModeState, begin_progress, pending, write_loop}
use incrededup.SyncMode.Rows.{group, regroup, longer, parts, concat-take, Replaced-again}
use incrededup.SyncMode.Loop.{Noted, IsProgress-at_row, write_loop-Ran}

module _ (F : Float) (D : Database F) (T : Table SyncField Bytes) (batch : ℕ)
    (resolved : List (DupeMatch F)) (parents_total children_total : ℕ) where
  -- The progress with which a run starts on a state.
  abbrev pub resumed : ℕ → T.T → SyncProgress
  resumed now table =
      begin_progress now (length resolved) parents_total children_total (get_sync_progress T table)

  -- The states that stopped runs leave: one that no run has touched, and what a run leaves that was
  -- stopped after any number of its chunks, or when the rows of a chunk were written and not counted.
  pub data Stopped (db₀ : D.Db) : D.Db × T.T → Type 0 where
    started :
        (table : T.T) → (get_sync_progress T table).step ≡ not_started → Stopped db₀ (db₀, table)
    stopped :
        (db : D.Db) (table : T.T) (now k : ℕ)
        → Stopped db₀ (db, table)
        → IsU64 now
        → Stopped db₀
            (write_loop F D T batch
              (length resolved)
              (take k (pending F D T batch resolved (resumed now table)))
              (resumed now table)
              (db, table)).0
    cut :
        (db : D.Db) (table : T.T) (now k : ℕ) (chunk : List (DupeMatch F))
        (rest : List (List (DupeMatch F)))
        → Stopped db₀ (db, table)
        → IsU64 now
        → drop k (pending F D T batch resolved (resumed now table)) ≡ chunk ∷ rest
        → Stopped db₀ (
          (write_dupes F D
              (write_loop F D T batch
                (length resolved)
                (take k (pending F D T batch resolved (resumed now table)))
                (resumed now table)
                (db, table)).0.0
              chunk).0,
          (write_loop F D T batch
              (length resolved)
              (take k (pending F D T batch resolved (resumed now table)))
              (resumed now table)
              (db, table)).0.1,
        )

  -- What the store has when the rows `a` are noted.
  abbrev Known : List (DupeMatch F) → SyncProgress → Type 0
  Known a q =
      (q.step ≡ not_started) × (a ≡ [])
      ⊎ (q.step ≡ writing_dupes) × IsProgress q × (q.dupes_written ≡ length a)

  -- The rows `a` are noted as written, and `b` are written as well.
  pub record Inv (db₀ db : D.Db) (table : T.T) : Type 0 where
    pub a : List (DupeMatch F)
    pub b : List (DupeMatch F)
    pub c : List (DupeMatch F)
    pub whole : resolved ≡ a ++ (b ++ c)
    pub rows : Replaced F D (a ++ b) db₀ db
    pub noted : Known a (get_sync_progress T table)

  -- What a run knows of its progress.
  abbrev Begun : List (DupeMatch F) → SyncProgress → Type 0
  Begun a p = (p.step ≡ writing_dupes) × (p.dupes_written ≡ length a) × IsProgress p

  module _ (db₀ : D.Db) (lt : 0 < batch) (d : Distinct (child_of F) resolved)
      (small : IsU64 (length resolved)) (small_parents : IsU64 parents_total)
      (small_children : IsU64 children_total) where
    pub begun :
        (now : ℕ) (q : SyncProgress) (a : List (DupeMatch F))
        → IsU64 now
        → Known a q
        → Begun a (begin_progress now (length resolved) parents_total children_total q)
    unfolding begin_progress
    begun now q a h (inl (e, none_yet)) =
        rw (e, begin_progress)
          (
            refl,
            ap length (sym none_yet),
            record {
              dupes_written = omega arith;
              dupes_total = small;
              parents_marked = omega arith;
              parents_total = small_parents;
              children_marked = omega arith;
              children_total = small_children;
              started_at = h;
              completed_at = omega arith;
            },
          )
    begun now q a h (inr (e, i, n)) =
        rw (e, begin_progress)
          (
            e,
            n,
            record {
              dupes_written = i.dupes_written;
              dupes_total = small;
              parents_marked = i.parents_marked;
              parents_total = small_parents;
              children_marked = i.children_marked;
              children_total = small_children;
              started_at = i.started_at;
              completed_at = i.completed_at;
            },
          )

    -- The chunks that a run has left are the rows that are not noted.
    pub pending-concat :
        (a rest : List (DupeMatch F)) (p : SyncProgress)
        → resolved ≡ a ++ rest
        → p.dupes_written ≡ length a
        → concat (pending F D T batch resolved p) ≡ rest
    pending-concat a rest p whole n =
        concat-chunks batch (drop p.dupes_written resolved) lt
        ∙ ap (λ k. drop k resolved) n
        ∙ ap (drop (length a)) whole
        ∙ drop-append_at (length a) a rest refl

    pub rows_again :
        (a b c u v l : List (DupeMatch F)) (db db' : D.Db)
        → resolved ≡ a ++ (b ++ c)
        → resolved ≡ a ++ (u ++ v)
        → ((m : DupeMatch F) → Elem m l ↔ (Elem m b ⊎ Elem m u))
        → Replaced F D (a ++ b) db₀ db
        → Replaced F D u db db'
        → Replaced F D (a ++ l) db₀ db'
    rows_again a b c u v l db db' e₁ e₂ both old new =
        Replaced-again F D resolved (a ++ b) u (a ++ l) db₀ db db' d
          (λ m i. (parts resolved a b c m e₁).1 ((Elem-append m a b).0 i))
          (λ m i. (parts resolved a u v m e₂).1 (inr i))
          (λ m. ground (arith, Elem-append m a l, Elem-append m a b, both m)) old new

    -- Rows `u` that a run has written, some of them noted, keep what is known of the state.
    keep-Inv :
        (db db' : D.Db) (table table' : T.T) (now : ℕ) (u v : List (DupeMatch F))
        → IsU64 now
        → (i : Inv db₀ db table) → i.b ++ i.c ≡ u ++ v
        → Replaced F D u db db'
        → Noted F D T u (resumed now table) table table'
        → Inv db₀ db' table'
    keep-Inv db db' table table' now u v h i left new noted =
        let p = resumed now table in
        let (step, n, fits) = begun now (get_sync_progress T table) i.a h i.noted in
        let whole : resolved ≡ i.a ++ (u ++ v) = i.whole ∙ ap (λ l. i.a ++ l) left in
        let size : length resolved ≡ length i.a + (length u + length v) =
          ap length whole
          ∙ length-append i.a (u ++ v)
          ∙ ap (λ t. length i.a + t) (length-append u v) in
        let (s, c', split, both) = longer i.b i.c u v left in
        let total : resolved ≡ i.a ++ ((u ++ s) ++ c') = i.whole ∙ ap (λ l. i.a ++ l) split in
        let rows = rows_again i.a i.b i.c u v (u ++ s) db db' i.whole whole both i.rows new in
        elim noted [
          | inl same ↦ record {
            a = i.a;
            b = u ++ s;
            c = c';
            whole = total;
            rows = rows;
            noted = subst (Known i.a) (sym same) i.noted;
          }
          | inr (x, y, e, g) ↦ record {
            a = i.a ++ x;
            b = y ++ s;
            c = c';
            whole = total ∙ ap (λ t. i.a ++ ((t ++ s) ++ c')) e ∙ regroup i.a x y s c';
            rows =
                subst (λ l. Replaced F D l db₀ db') (ap (λ t. i.a ++ (t ++ s)) e ∙ group i.a x y s)
                  rows;
            noted = subst (Known (i.a ++ x)) (sym g) (
                inr (
                  step,
                  IsProgress-at_row _ p (omega (arith, small, ap length e, length-append x y)) fits,
                  ap (λ t. t + length x) n ∙ sym (length-append i.a x),
                ));
          }
        ]

    -- The first chunks of a run, on a state of which something is known.
    record First (db : D.Db) (table : T.T) (now k : ℕ) (i : Inv db₀ db table) : Type 0 where
      db' : D.Db
      table' : T.T
      run :
          (write_loop F D T batch
            (length resolved)
            (take k (pending F D T batch resolved (resumed now table)))
            (resumed now table)
            (db, table)).0
          ≡ (db', table')
      left :
          i.b ++ i.c
          ≡ concat (take k (pending F D T batch resolved (resumed now table)))
            ++ concat (drop k (pending F D T batch resolved (resumed now table)))
      once : Distinct (child_of F) (
          concat (take k (pending F D T batch resolved (resumed now table)))
          ++ concat (drop k (pending F D T batch resolved (resumed now table))))
      new : Replaced F D (concat (take k (pending F D T batch resolved (resumed now table)))) db db'
      noted :
          Noted F D T
            (concat (take k (pending F D T batch resolved (resumed now table))))
            (resumed now table)
            table
            table'

    take-First :
        (db : D.Db) (table : T.T) (now k : ℕ) (i : Inv db₀ db table)
        → IsU64 now
        → First db table now k i
    take-First db table now k i h =
        let p = resumed now table in
        let (step, n, fits) = begun now (get_sync_progress T table) i.a h i.noted in
        let cs = pending F D T batch resolved p in
        let u = concat (take k cs) in
        let v = concat (drop k cs) in
        let left : i.b ++ i.c ≡ u ++ v =
          sym (pending-concat i.a (i.b ++ i.c) p i.whole n) ∙ concat-take k cs in
        let whole : resolved ≡ i.a ++ (u ++ v) = i.whole ∙ ap (λ l. i.a ++ l) left in
        let ends =
          (Distinct-append (child_of F) i.a (u ++ v) (subst (Distinct (child_of F)) whole d)).1 in
        let size : length resolved ≡ length i.a + (length u + length v) =
          ap length whole
          ∙ length-append i.a (u ++ v)
          ∙ ap (λ t. length i.a + t) (length-append u v) in
        let (db', table', run, new, noted) =
          write_loop-Ran F D T batch (length resolved) (take k cs) p db table
            (Distinct-append (child_of F) u v ends).0 fits (omega (arith, small)) in
        record {
          db' = db';
          table' = table';
          run = ap (λ (o : ModeState F D T × Result DbError SyncProgress). o.0) run;
          left = left;
          once = ends;
          new = new;
          noted = noted;
        }

    -- More rows, which are not noted.
    Noted-append :
        (u c : List (DupeMatch F)) (p : SyncProgress) (table table' : T.T)
        → Noted F D T u p table table'
        → Noted F D T (u ++ c) p table table'
    Noted-append u c p table table' (inl same) = inl same
    Noted-append u c p table table' (inr (x, y, e, g)) =
        inr (x, y ++ c, ap (λ t. t ++ c) e ∙ append_assoc x y c, g)

    cut-Inv :
        (db : D.Db) (table : T.T) (now k : ℕ) (chunk : List (DupeMatch F))
        (rest : List (List (DupeMatch F))) (i : Inv db₀ db table) (f : First db table now k i)
        → IsU64 now
        → drop k (pending F D T batch resolved (resumed now table)) ≡ chunk ∷ rest
        → Inv db₀ (write_dupes F D f.db' chunk).0 f.table'
    unfolding concat
    cut-Inv db table now k chunk rest i f h e =
        let u = concat (take k (pending F D T batch resolved (resumed now table))) in
        let next = ap concat e in
        let once = subst (λ l. Distinct (child_of F) (u ++ l)) next f.once in
        let together =
          subst (Distinct (child_of F)) (sym (append_assoc u chunk (concat rest))) once in
        let first = (Distinct-append (child_of F) (u ++ chunk) (concat rest) together).0 in
        let (db'', run, new) =
          write_dupes-Replaced F D f.db' chunk (Distinct-append (child_of F) u chunk first).1 in
        subst (λ t. Inv db₀ t f.table') (sym (ap (λ (o : D.Db × Result DbError ℕ). o.0) run))
          (keep-Inv db db'' table f.table' now (u ++ chunk) (concat rest) h i
            (f.left ∙ ap (λ l. u ++ l) next ∙ sym (append_assoc u chunk (concat rest)))
            (Replaced-trans F D u chunk db f.db' db'' first f.new new)
            (Noted-append u chunk (resumed now table) table f.table' f.noted))

    pub Stopped-Inv : (st : D.Db × T.T) → Stopped db₀ st → Inv db₀ st.0 st.1
    Stopped-Inv st (started table e) = record {
      a = [];
      b = [];
      c = resolved;
      whole = refl;
      rows = Replaced-nil F D db₀;
      noted = inl (e, refl);
    }
    Stopped-Inv st (stopped db table now k before h) =
        let i = Stopped-Inv (db, table) before in
        let f = take-First db table now k i h in
        subst (λ (o : D.Db × T.T). Inv db₀ o.0 o.1) (sym f.run)
          (keep-Inv db f.db' table f.table' now _ _ h i f.left f.new f.noted)
    Stopped-Inv st (cut db table now k chunk rest before h e) =
        let i = Stopped-Inv (db, table) before in
        let f = take-First db table now k i h in
        subst (λ (o : D.Db × T.T). Inv db₀ (write_dupes F D o.0 chunk).0 o.1) (sym f.run)
          (cut-Inv db table now k chunk rest i f h e)
