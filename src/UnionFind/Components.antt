-- ===== src/UnionFind/Components.antt =====
-- What the unions of src/union_find.rs compute: the connected components of the pairs that were
-- joined, each with the member of lowest key as its root.

use incrededup.Base.{
  ℕ, ◌≤◌, ◌<◌, ◌≡◌, ◌≢◌, ◌↔◌, ◌⊎◌, refl, sym, subst, inl, inr, List, [], ◌∷◌, ◌++◌, Elem,
  Elem-append, All, arith, if◌then◌else◌, ◌==◌, ==-cases, ==_iff, Bool-cases, ap, some, none,
  ⊎_elim,
}
use incrededup.Table.{Table}
use incrededup.UnionFind.{Uuid, union_by_key}
use incrededup.UnionFind.Forest.{Root, IsRanked, Root_unique, Root_of_rank, rank-Root}
use incrededup.UnionFind.Find.{parent_of}
use incrededup.UnionFind.Union.{United, union_by_key-United}

-- A chain of pairs, read in either direction, leads from `x` to the index.
pub data Conn (es : List (ℕ × ℕ)) (x : ℕ) : ℕ → Type 0 where
  here : (y : ℕ) → x ≡ y → Conn es x y
  forth : (y z : ℕ) → Conn es x y → Elem (y, z) es → Conn es x z
  back : (y z : ℕ) → Conn es x y → Elem (z, y) es → Conn es x z

pub Conn_trans : {es : List (ℕ × ℕ)} {x y z : ℕ} → Conn es x y → Conn es y z → Conn es x z
Conn_trans {es} {x} c (here z e) = subst (Conn es x) e c
Conn_trans c (forth y z d m) = forth y z (Conn_trans c d) m
Conn_trans c (back y z d m) = back y z (Conn_trans c d) m

pub Conn_symm : {es : List (ℕ × ℕ)} {x y : ℕ} → Conn es x y → Conn es y x
Conn_symm {x} (here y e) = here x (sym e)
Conn_symm (forth y z d m) = Conn_trans (back z y (here z refl) m) (Conn_symm d)
Conn_symm (back y z d m) = Conn_trans (forth z y (here z refl) m) (Conn_symm d)

pub Conn_mono :
    {es fs : List (ℕ × ℕ)} {x y : ℕ}
    → ((e : ℕ × ℕ) → Elem e es → Elem e fs)
    → Conn es x y
    → Conn fs x y
Conn_mono h (here y e) = here y e
Conn_mono h (forth y z d m) = forth y z (Conn_mono h d) (h _ m)
Conn_mono h (back y z d m) = back y z (Conn_mono h d) (h _ m)

-- `r` is the member of lowest key in the component of `x`.
pub record Canonical (key : ℕ → ℕ) (es : List (ℕ × ℕ)) (x r : ℕ) : Type 0 where
  pub connected : Conn es x r
  pub lowest : (y : ℕ) → Conn es x y → key r ≤ key y

-- The ends of a pair are below a bound.
abbrev pub IsBounded : ℕ → ℕ × ℕ → Type 0
IsBounded n e = (e.0 < n) × (e.1 < n)

pub Conn-bounded :
    {es : List (ℕ × ℕ)} {n x y : ℕ}
    → ((e : ℕ × ℕ) → Elem e es → IsBounded n e)
    → x < n
    → Conn es x y
    → y < n
Conn-bounded {n} h lt (here y e) = subst (λ t. t < n) e lt
Conn-bounded h lt (forth y z d m) = (h _ m).1
Conn-bounded h lt (back y z d m) = (h _ m).0

-- The ids that stand in some pair.
abbrev pub Endpoint : List (ℕ × ℕ) → ℕ → Type 0
Endpoint [] x = ⊥
Endpoint ((a, b) ∷ es) x = (x ≡ a) ⊎ ((x ≡ b) ⊎ Endpoint es x)

pub Elem-Endpoint : (es : List (ℕ × ℕ)) (a b : ℕ) → Elem (a, b) es → Endpoint es a × Endpoint es b
Elem-Endpoint [] a b m = absurd m
Elem-Endpoint ((c, d) ∷ es) a b (inl e) =
    (inl (ap (λ (t : ℕ × ℕ). t.0) e), inr (inl (ap (λ (t : ℕ × ℕ). t.1) e)))
Elem-Endpoint ((c, d) ∷ es) a b (inr m) =
    let (h, k) = Elem-Endpoint es a b m in (inr (inr h), inr (inr k))

pub Endpoint-append :
    (es fs : List (ℕ × ℕ)) (x : ℕ) → Endpoint (es ++ fs) x ↔ (Endpoint es x ⊎ Endpoint fs x)
Endpoint-append [] fs x = (inr, ⊎_elim absurd (λ h. h))
Endpoint-append ((a, b) ∷ es) fs x = ground (arith, Endpoint-append es fs x)

pub Endpoint-bounded :
    {bound : ℕ} (es : List (ℕ × ℕ)) (x : ℕ) → All (IsBounded bound) es → Endpoint es x → x < bound
Endpoint-bounded [] x h p = absurd p
Endpoint-bounded {bound} ((a, b) ∷ es) x h p = ground (arith, Endpoint-bounded {bound = bound} es x)

pub Conn-Endpoint : {es : List (ℕ × ℕ)} {x y : ℕ} → Endpoint es x → Conn es x y → Endpoint es y
Conn-Endpoint {es} h (here y e) = subst (Endpoint es) e h
Conn-Endpoint {es} h (forth y z d m) = (Elem-Endpoint es y z m).1
Conn-Endpoint {es} h (back y z d m) = (Elem-Endpoint es z y m).0

-- A chain of pairs that leads elsewhere begins with a pair.
pub Conn-start : {es : List (ℕ × ℕ)} {x y : ℕ} → Conn es x y → (x ≡ y) ⊎ Endpoint es x
Conn-start (here y e) = inl e
Conn-start {es} (forth y z d m) =
    inr
      (⊎_elim (λ e. subst (Endpoint es) (sym e) (Elem-Endpoint es y z m).0) (λ p. p) (Conn-start d))
Conn-start {es} (back y z d m) =
    inr
      (⊎_elim (λ e. subst (Endpoint es) (sym e) (Elem-Endpoint es z y m).1) (λ p. p) (Conn-start d))

-- Ids below a bound have keys of their own, below the fuel.
pub record Keyed (key : ℕ → ℕ) (bound fuel : ℕ) : Type 0 where
  pub injective : (x y : ℕ) → x < bound → y < bound → key x ≡ key y → x ≡ y
  pub fueled : (x : ℕ) → x < bound → key x < fuel

-- The canonical member of a component is one, where keys tell ids apart.
pub Canonical-unique :
    {key : ℕ → ℕ} {bound fuel : ℕ} {es : List (ℕ × ℕ)} {x r s : ℕ}
    → Keyed key bound fuel
    → ((e : ℕ × ℕ) → Elem e es → IsBounded bound e)
    → x < bound
    → Canonical key es x r
    → Canonical key es x s
    → r ≡ s
Canonical-unique {r} {s} k low lt h h' =
    let a = h.lowest s h'.connected in
    let b = h'.lowest r h.connected in
    k.injective r s (Conn-bounded low lt h.connected) (Conn-bounded low lt h'.connected)
      (omega arith)

module _ (M : Table Uuid Uuid) (key : ℕ → ℕ) where
  open M use {T, get}

  -- The forest stands for the components of `es`.
  pub record Joins (es : List (ℕ × ℕ)) (uf : T) : Type 0 where
    pub ranked : IsRanked key (parent_of M uf)
    pub sound : (r x : ℕ) → Root (parent_of M uf) r x → Conn es x r
    pub joined :
        (a b : ℕ) → Elem (a, b) es → (r : ℕ) × Root (parent_of M uf) r a × Root (parent_of M uf) r b

  module _ {es : List (ℕ × ℕ)} {uf : T} (h : Joins es uf) where
    one_root :
        {a b r s : ℕ}
        → Root (parent_of M uf) s a
        → Root (parent_of M uf) s b
        → Root (parent_of M uf) r a
        → Root (parent_of M uf) r b
    one_root {b} da db d = subst (λ t. Root (parent_of M uf) t b) (Root_unique da d) db

    -- Connected nodes have one root.
    pub Joins-Conn :
        {x y r : ℕ} → Root (parent_of M uf) r x → Conn es x y → Root (parent_of M uf) r y
    Joins-Conn {r} d (here _ e) = subst (Root (parent_of M uf) r) e d
    Joins-Conn d (forth a b c m) =
        let (s, da, db) = h.joined a b m in one_root da db (Joins-Conn d c)
    Joins-Conn d (back a b c m) =
        let (s, da, db) = h.joined b a m in one_root db da (Joins-Conn d c)

    -- The root of a node is the member of lowest key in its component.
    pub Joins-Canonical : {x r : ℕ} → Root (parent_of M uf) r x → Canonical key es x r
    Joins-Canonical {x} {r} d = record {
      connected = h.sound r x d;
      lowest = λ y c. rank-Root key h.ranked (Joins-Conn d c);
    }

  -- One union after the pairs `es` have been joined.
  pub record Joined (es : List (ℕ × ℕ)) (uf : T) (x y : ℕ) (uf' : T) : Type 0 where
    pub joins : Joins (es ++ (x, y) ∷ []) uf'
    pub kept : (z : ℕ) → get uf z ≢ none → get uf' z ≢ none
    pub fresh : (z : ℕ) → get uf' z ≢ none → Conn (es ++ (x, y) ∷ []) x z ⊎ (get uf z ≢ none)

  module _ (es : List (ℕ × ℕ)) (uf : T) (x y : ℕ) (h : Joins es uf) where
    more : {a b : ℕ} → Conn es a b → Conn (es ++ (x, y) ∷ []) a b
    more c = Conn_mono (λ e m. (Elem-append e es ((x, y) ∷ [])).1 (inl m)) c

    bridge : Conn (es ++ (x, y) ∷ []) x y
    bridge = forth x y (here x refl) ((Elem-append (x, y) es ((x, y) ∷ [])).1 (inr (inl refl)))

    module _ (uf' : T) (w l : ℕ) (u : United M key uf x y uf' w l) where
      loser : Conn (es ++ (x, y) ∷ []) x l
      loser =
          ⊎_elim (λ k. Conn_trans bridge (more (h.sound l y k.1))) (λ k. more (h.sound l x k.0))
            u.ends

      winner : Conn (es ++ (x, y) ∷ []) x w
      winner =
          ⊎_elim (λ k. more (h.sound w x k.0)) (λ k. Conn_trans bridge (more (h.sound w y k.1)))
            u.ends

      sound_after : (r z : ℕ) → Root (parent_of M uf') r z → Conn (es ++ (x, y) ∷ []) z r
      sound_after r z d =
          let (s, f) = Root_of_rank key h.ranked z in
          let e = Root_unique d (u.roots s z f) in
          elim (==-cases s l) [
            | inl (t, same) ↦
                let to_w : r ≡ w = rw t at e in
                subst (Conn (es ++ (x, y) ∷ []) z) (sym to_w) (
                  Conn_trans (more (subst (Conn es z) same (h.sound s z f)))
                    (Conn_trans (Conn_symm loser) winner))
            | inr (t, _) ↦
                let to_s : r ≡ s = rw t at e in
                subst (Conn (es ++ (x, y) ∷ []) z) (sym to_s) (more (h.sound s z f))
          ]

      from_winner : {z : ℕ} → Root (parent_of M uf) w z → Root (parent_of M uf') w z
      from_winner {z} d = elim (Bool-cases (w == l)) [
        | inl t ↦ rw t at (u.roots w z d)
        | inr t ↦ rw t at (u.roots w z d)
      ]

      from_loser : {z : ℕ} → Root (parent_of M uf) l z → Root (parent_of M uf') w z
      from_loser {z} d = rw ((==_iff l l).1 refl) at (u.roots l z d)

      both : Root (parent_of M uf') w x × Root (parent_of M uf') w y
      both =
          ⊎_elim (λ k. (from_winner k.0, from_loser k.1)) (λ k. (from_loser k.0, from_winner k.1))
            u.ends

      joined_after :
          (a b : ℕ)
          → Elem (a, b) (es ++ (x, y) ∷ [])
          → (r : ℕ) × Root (parent_of M uf') r a × Root (parent_of M uf') r b
      joined_after a b m = elim ((Elem-append (a, b) es ((x, y) ∷ [])).0 m) [
        | inl old ↦
            let (s, da, db) = h.joined a b old in
            (if s == l then w else s, u.roots s a da, u.roots s b db)
        | inr (inl e) ↦
            let (dx, dy) = both in
            (
              w,
              subst (Root (parent_of M uf') w) (ap (λ (t : ℕ × ℕ). t.0) (sym e)) dx,
              subst (Root (parent_of M uf') w) (ap (λ (t : ℕ × ℕ). t.1) (sym e)) dy,
            )
        | inr (inr none_left) ↦ absurd none_left
      ]

      United-Joined : Joined es uf x y uf'
      United-Joined = record {
        joins = record { ranked = u.ranked; sound = sound_after; joined = joined_after };
        kept = u.kept;
        fresh = λ z n.
            ⊎_elim (λ e. inl (subst (Conn (es ++ (x, y) ∷ []) x) (sym e) loser)) inr (u.fresh z n);
      }

  -- A union of two ids below the bound succeeds, and adds the pair to those that are joined.
  pub union-Joined :
      (bound fuel : ℕ) (es : List (ℕ × ℕ)) (uf : T) (x y : ℕ)
      → Keyed key bound fuel
      → ((e : ℕ × ℕ) → Elem e es → IsBounded bound e)
      → x < bound
      → y < bound
      → Joins es uf
      → (uf' : T) × (union_by_key M fuel key uf x y ≡ some uf') × Joined es uf x y uf'
  union-Joined bound fuel es uf x y k low hx hy h =
      let (uf', w, l, run, u) =
        union_by_key-United M key fuel uf x y h.ranked (k.fueled x hx) (k.fueled y hy) (λ r s d f.
          k.injective r s (Conn-bounded low hx (h.sound r x d))
            (Conn-bounded low hy (h.sound s y f))) in
      (uf', run, United-Joined es uf x y h uf' w l u)
