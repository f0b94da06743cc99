-- ===== src/Storage/Scan/Passes.antt =====
-- The passes of `visit_real_edges_connected_to` in src/storage/mod.rs: they end, and what they leave
-- is closed under the edges.
use incrededup.Base.{
  ℕ, zero, suc, ◌+◌, ◌<◌, ◌≤◌, ◌≡◌, inl, inr, refl, sym, ap, ◌∙◌, subst, true, false, some, List,
  [], ◌∷◌, if◌then◌else◌, ==-cases, Bool-cases, arith, Elem, length, contains, include,
}
use incrededup.Match.{Float, MatchRecord}
use incrededup.UnionFind.{Uuid}
use incrededup.Storage.Scan.{touches, grow, grow_loop}

-- How many of some ids are not in a set yet.
unfoldable pub missing : List Uuid → List Uuid → ℕ
missing [] known = 0
missing (u ∷ us) known = (if contains known u then 0 else 1) + missing us known

pub missing-le : (us known : List Uuid) → missing us known ≤ length us
unfolding missing
missing-le [] known = omega arith
missing-le (u ∷ us) known = ground (arith, missing-le us known)

missing_mono : (us known : List Uuid) (x : Uuid) → missing us (x ∷ known) ≤ missing us known
unfolding missing contains
missing_mono [] known x = omega arith
missing_mono (u ∷ us) known x = ground (arith, missing_mono us known x)

pub missing-new :
    (us known : List Uuid) (x : Uuid)
    → Elem x us
    → contains known x ≡ false
    → missing us (x ∷ known) < missing us known
unfolding missing contains
missing-new [] known x m n = absurd m
missing-new (u ∷ us) known x m n =
    ground (arith, m, missing-new us known x, missing_mono us known x)

-- An id that enters a set is no longer missing.
pub include-missing :
    (us known : List Uuid) (x : Uuid)
    → Elem x us
    → length (include x known) + missing us (include x known) ≤ length known + missing us known
unfolding include
include-missing us known x m = elim (Bool-cases (contains known x)) [
  | inl t ↦ rw t (omega arith)
  | inr f ↦ rw f (omega (arith, missing-new us known x m f))
]

pub include-le : (known : List Uuid) (x : Uuid) → length known ≤ length (include x known)
unfolding include
include-le known x = ground arith

-- A set that gains no member holds the id already.
pub include_same :
    (known : List Uuid) (x : Uuid)
    → length (include x known) ≡ length known
    → (contains known x ≡ true) × (include x known ≡ known)
unfolding include
include_same known x e = elim (Bool-cases (contains known x)) [
  | inl t ↦ (t, rw t refl)
  | inr f ↦ absurd (omega (arith, longer f))
]
  where
    longer : contains known x ≡ false → length (include x known) ≡ suc (length known)
    longer f = rw (f, include) refl

module _ (F : Float) where
  -- The ids of the records.
  abbrev pub ids_of : List (MatchRecord F) → List Uuid
  ids_of [] = []
  ids_of (r ∷ rs) = r.child_id ∷ r.parent_id ∷ ids_of rs

  abbrev pub step : MatchRecord F → List Uuid → List Uuid
  step r known = if touches F known r then include r.parent_id (include r.child_id known) else known

  step-missing :
      (us known : List Uuid) (r : MatchRecord F)
      → Elem r.child_id us
      → Elem r.parent_id us
      → length (step r known) + missing us (step r known) ≤ length known + missing us known
  step-missing us known r hc hp = elim (Bool-cases (touches F known r)) [
    | inl t ↦ rw t (
        omega (
          arith,
          include-missing us (include r.child_id known) r.parent_id hp,
          include-missing us known r.child_id hc,
        ))
    | inr f ↦ rw f (omega arith)
  ]

  grow-missing :
      (us known : List Uuid) (rs : List (MatchRecord F))
      → ((x : Uuid) → Elem x (ids_of rs) → Elem x us)
      → length (grow F rs known) + missing us (grow F rs known) ≤ length known + missing us known
  unfolding grow
  grow-missing us known [] h = omega arith
  grow-missing us known (r ∷ rs) h = omega (
    arith,
    step-missing us known r (h r.child_id (inl refl)) (h r.parent_id (inr (inl refl))),
    grow-missing us (step r known) rs (λ x m. h x (inr (inr m))),
  )

  step-le : (known : List Uuid) (r : MatchRecord F) → length known ≤ length (step r known)
  step-le known r = elim (Bool-cases (touches F known r)) [
    | inl t ↦ rw t (
        omega
          (arith, include-le known r.child_id, include-le (include r.child_id known) r.parent_id))
    | inr f ↦ rw f (omega arith)
  ]

  grow-le :
      (known : List Uuid) (rs : List (MatchRecord F)) → length known ≤ length (grow F rs known)
  unfolding grow
  grow-le known [] = omega arith
  grow-le known (r ∷ rs) = omega (arith, step-le known r, grow-le (step r known) rs)

  -- A record that touches the set has both its ends there.
  abbrev pub Closed : List (MatchRecord F) → List Uuid → Type 0
  Closed rs known =
      (r : MatchRecord F)
      → Elem r rs
      → touches F known r ≡ true
      → (contains known r.child_id ≡ true) × (contains known r.parent_id ≡ true)

  step_same :
      (known : List Uuid) (r : MatchRecord F)
      → length (step r known) ≡ length known
      → (step r known ≡ known)
        × (touches F known r ≡ true
            → (contains known r.child_id ≡ true) × (contains known r.parent_id ≡ true))
  step_same known r e = elim (Bool-cases (touches F known r)) [
    | inl t ↦
        let size : length (include r.parent_id (include r.child_id known)) ≡ length known =
          rw t at e in
        let low = include-le known r.child_id in
        let high = include-le (include r.child_id known) r.parent_id in
        let (a, b) = include_same known r.child_id (omega arith) in
        let (c, d) =
          include_same known r.parent_id
            (ap (λ k. length (include r.parent_id k)) (sym b) ∙ size) in
        (rw (t, b, d) refl, λ u. (a, c))
    | inr f ↦ (rw f refl, λ t. (cc, cc))
  ]

  grow_same :
      (known : List Uuid) (rs : List (MatchRecord F))
      → length (grow F rs known) ≡ length known
      → (grow F rs known ≡ known) × Closed rs known
  unfolding grow
  grow_same known [] e = (refl, λ r m t. absurd m)
  grow_same known (r ∷ rs) e =
      let low = step-le known r in
      let high = grow-le (step r known) rs in
      let (same, here) = step_same known r (omega arith) in
      let (rest, closed) = grow_same known rs (ap (λ k. length (grow F rs k)) (sym same) ∙ e) in
      (
        ap (grow F rs) same ∙ rest,
        λ x m t. elim m [
          | inl first ↦
              let (a, b) = here (subst (λ y. touches F known y ≡ true) first t) in
              (
                subst (λ y. contains known y.child_id ≡ true) (sym first) a,
                subst (λ y. contains known y.parent_id ≡ true) (sym first) b,
              )
          | inr later ↦ closed x later t
        ],
      )

  -- What every step keeps holds after a pass.
  grow-keeps :
      (P : List Uuid → Type 0) (rs : List (MatchRecord F))
      → ((known : List Uuid) (r : MatchRecord F) → Elem r rs → P known → P (step r known))
      → (known : List Uuid) → P known
      → P (grow F rs known)
  unfolding grow
  grow-keeps P [] h known p = p
  grow-keeps P (r ∷ rs) h known p =
      grow-keeps P rs (λ k x m. h k x (inr m)) (step r known) (h known r (inl refl) p)

  -- With fuel above the ids that are missing, the loop ends in a closed set, in which what every step
  -- keeps holds.
  pub grow_loop_lem :
      (P : List Uuid → Type 0) (fuel : ℕ) (rs : List (MatchRecord F)) (known : List Uuid) (n : ℕ)
      → ((k : List Uuid) (r : MatchRecord F) → Elem r rs → P k → P (step r k))
      → missing (ids_of rs) known < fuel
      → P known
      → (known' : List Uuid) × (n' : ℕ) × (grow_loop F fuel rs known n ≡ some (known', n'))
        × Closed rs known'
        × P known'
  unfolding grow_loop
  grow_loop_lem P zero rs known n h lt p = absurd (omega arith)
  grow_loop_lem P (suc fuel) rs known n h lt p =
      elim (==-cases (length (grow F rs known)) (length known)) [
        | inl (t, same) ↦
            let (e, closed) = grow_same known rs same in
            (
              grow F rs known,
              suc n,
              rw t refl,
              subst (Closed rs) (sym e) closed,
              grow-keeps P rs h known p,
            )
        | inr (t, differ) ↦
            let low = grow-le known rs in
            let fall = grow-missing (ids_of rs) known rs (λ x m. m) in
            let (known', n', run, closed, q) =
              grow_loop_lem P fuel rs (grow F rs known) (suc n) h (omega arith)
                (grow-keeps P rs h known p) in
            (known', n', rw t run, closed, q)
      ]
