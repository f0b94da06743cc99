-- ===== src/UnionFind/Forest.antt =====
-- The theory behind src/union_find.rs, of a function `p` from nodes to parents, where a node
-- that is its own parent is a root.
use incrededup.Base.{
  ℕ, suc, ◌≤◌, ◌<◌, ◌≡◌, ◌≢◌, refl, sym, ◌∙◌, subst, inl, inr, arith, if◌then◌else◌, ◌==◌, ==-cases,
  ==_iff,
}

pub data Root (p : ℕ → ℕ) (r : ℕ) : ℕ → Type 0 where
  stop : (x : ℕ) → x ≡ r → p r ≡ r → Root p r x
  step : (x : ℕ) → Root p r (p x) → Root p r x

-- Every step towards a root lowers the rank.
abbrev pub IsRanked : (ℕ → ℕ) → (ℕ → ℕ) → Type 0
IsRanked rank p = (x : ℕ) → p x ≢ x → rank (p x) < rank x

-- `q` is `p` with a new parent `r` for `c`.
abbrev pub Updates : (p q : ℕ → ℕ) → ℕ → ℕ → Type 0
Updates p q c r = (z : ℕ) → q z ≡ (if z == c then r else p z)

module _ {p : ℕ → ℕ} where
  pub Root-fixed : {r x : ℕ} → Root p r x → p r ≡ r
  Root-fixed (stop _ e h) = h
  Root-fixed (step _ d) = Root-fixed d

  -- A root leads only to itself.
  pub Root_of_fixed : {r x : ℕ} → p x ≡ x → Root p r x → r ≡ x
  Root_of_fixed h (stop _ e _) = sym e
  Root_of_fixed h (step _ d) = Root_of_fixed (cc) d ∙ h

  pub Root_unique : {r s x : ℕ} → Root p r x → Root p s x → r ≡ s
  Root_unique (stop _ e h) d = sym (Root_of_fixed (cc) d ∙ e)
  Root_unique (step x c) (stop _ e h) = Root_of_fixed (cc) (step x c) ∙ e
  Root_unique (step _ c) (step _ d) = Root_unique c d

  -- The rank of a root is least on the way to it.
  pub rank-Root : (rank : ℕ → ℕ) {r x : ℕ} → IsRanked rank p → Root p r x → rank r ≤ rank x
  rank-Root rank h (stop _ e _) = ground arith
  rank-Root rank {r} h (step x d) = elim (==-cases (p x) x) [
    | inl (_, e) ↦ subst (λ z. rank r ≤ rank z) e (rank-Root rank h d)
    | inr (_, n) ↦ omega (arith, rank-Root rank h d, h x n)
  ]

  pub rank-Root-lt :
      (rank : ℕ → ℕ) {r x : ℕ} → IsRanked rank p → p x ≢ x → Root p r x → rank r < rank x
  rank-Root-lt rank h n (stop x e f) = absurd (n (cc))
  rank-Root-lt rank h n (step x d) = omega (arith, rank-Root rank h d, h x n)

  Root_exists : (rank : ℕ → ℕ) → IsRanked rank p → (n x : ℕ) → rank x < n → (r : ℕ) × Root p r x
  Root_exists rank h ℕ.zero x lt = absurd (omega arith)
  Root_exists rank h (suc n) x lt = elim (==-cases (p x) x) [
    | inl (_, e) ↦ (x, stop x refl e)
    | inr (_, ne) ↦ let (r, d) = Root_exists rank h n (p x) (omega (arith, h x ne)) in (r, step x d)
  ]

  -- In a ranked forest every node has a root.
  pub Root_of_rank : (rank : ℕ → ℕ) → IsRanked rank p → (x : ℕ) → (r : ℕ) × Root p r x
  Root_of_rank rank h x = Root_exists rank h (suc (rank x)) x (omega arith)

module _ {p q : ℕ → ℕ} {c r : ℕ} (u : Updates p q c r) where
  pub IsRanked-update : (rank : ℕ → ℕ) → IsRanked rank p → rank r < rank c → IsRanked rank q
  IsRanked-update rank h lt x n = ground (arith, u x, h x)

  fixed_kept : {s : ℕ} → Root p r c → c ≢ r → p s ≡ s → q s ≡ s
  fixed_kept {s} d ne h = elim (==-cases s c) [
    | inl (_, e) ↦ absurd (ne (sym (Root_of_fixed (cc) d)))
    | inr (e, _) ↦ rw (u s, e) h
  ]

  -- Pointing a node straight at its root moves no root.
  pub Root-shortcut : {s x : ℕ} → Root p r c → c ≢ r → Root p s x → Root q s x
  Root-shortcut d ne (stop x e h) = stop x e (fixed_kept d ne h)
  Root-shortcut {s} d ne (step x f) = elim (==-cases x c) [
    | inl (e, same) ↦
        let top : s ≡ r = Root_unique (step x f) (subst (Root p r) (sym same) d) in
        step x (stop _ (rw (u x, e) (sym top)) (fixed_kept d ne (Root-fixed f)))
    | inr (e, _) ↦ step x (rw (u x, e) (Root-shortcut d ne f))
  ]

  -- Pointing a root at another root moves just what led to it.
  pub Root-link :
      {s x : ℕ} → p c ≡ c → p r ≡ r → c ≢ r → Root p s x → Root q (if s == c then r else s) x
  Root-link {s} hc hr ne (stop x e h) = elim (==-cases s c) [
    | inl (t, same) ↦ rw t (step x (stop _ (ground (arith, u x)) (ground (arith, u r))))
    | inr (t, _) ↦ rw t (stop x e (rw (u s, t) h))
  ]
  Root-link {s} hc hr ne (step x f) = elim (==-cases x c) [
    | inl (e, same) ↦
        let top : s ≡ c = Root_of_fixed (cc) (step x f) ∙ same in
        rw ((==_iff s c).1 top) (step x (stop _ (rw (u x, e)) (ground (arith, u r))))
    | inr (e, _) ↦ step x (rw (u x, e) (Root-link hc hr ne f))
  ]
