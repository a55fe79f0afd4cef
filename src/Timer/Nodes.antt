-- ===== src/Timer/Nodes.antt =====
-- The nodes of the timer tree, and what `find_or_insert` does to them.
use mping.Prelude.{
  ℕ_discrete, ℕ, suc, ◌≤◌, ◌<◌, ◌≡◌, inl, inr, refl, ap, sym, ◌∙◌, subst, false, List, [], ◌∷◌,
  ◌++◌, Option, none, some, ◌==◌, ==_refl, Bool-cases, Option-cases, arith,
}
use mping.Timer.{TreeNode, TimerTree, find, write, new_node, insert_child, find_or_insert}

pub write-same :
    {D : Type 0} (nodes : ℕ → TreeNode D) (i : ℕ) (n : TreeNode D) → write nodes i n i ≡ n
write-same nodes i n = rw (==_refl i) refl

pub write-other :
    {D : Type 0} (nodes : ℕ → TreeNode D) (i j : ℕ) (n : TreeNode D)
    → (j ≡ i → ⊥)
    → write nodes i n j ≡ nodes j
write-other nodes i j n h = let e : (j == i) ≡ false = ground arith in rw e refl

some-injective : {x y : ℕ} → some x ≡ some y → x ≡ y
some-injective e = cc

none-some : {x : ℕ} → none ≡ some x → ⊥
none-some e = absurd cc

module _ {D : Type 0} where
  -- A child lies behind its parent, which it points to.
  pub record IsValid (t : TimerTree D) : Type 0 where
    pub child :
        (i k c : ℕ)
        → i < t.next
        → find k (t.nodes i).children_map ≡ some c
        → (i < c) × (c < t.next) × ((t.nodes c).parent_ptr ≡ some i)

  -- What the measurements inside a node leave as it was: the nodes before it, and its own measurement.
  pub record Keeps (i : ℕ) (t t' : TimerTree D) : Type 0 where
    pub grows : t.next ≤ t'.next
    pub before : (j : ℕ) → j < i → t'.nodes j ≡ t.nodes j
    pub parent : (t'.nodes i).parent_ptr ≡ (t.nodes i).parent_ptr
    pub active : (t'.nodes i).is_active ≡ (t.nodes i).is_active
    pub started : (t'.nodes i).start ≡ (t.nodes i).start
    pub measured : (t'.nodes i).durations ≡ (t.nodes i).durations

  pub Keeps-refl : (i : ℕ) (t : TimerTree D) → Keeps i t t
  Keeps-refl i t = record {
    grows = omega arith;
    before = λ j h. refl;
    parent = refl;
    active = refl;
    started = refl;
    measured = refl;
  }

  pub Keeps-trans : (i : ℕ) (t u v : TimerTree D) → Keeps i t u → Keeps i u v → Keeps i t v
  Keeps-trans i t u v k l = record {
    grows = omega (arith, k.grows, l.grows);
    before = λ j h. l.before j h ∙ k.before j h;
    parent = l.parent ∙ k.parent;
    active = l.active ∙ k.active;
    started = l.started ∙ k.started;
    measured = l.measured ∙ k.measured;
  }

  -- The durations that the child with a key has, if there is one.
  abbrev pub durations_at : TimerTree D → Option ℕ → List D
  durations_at t none = []
  durations_at t (some c) = (t.nodes c).durations

  abbrev pub durations_of : TimerTree D → ℕ → ℕ → List D
  durations_of t i key = durations_at t (find key (t.nodes i).children_map)

  -- The tree with one more child of the node at `i`.
  module _ (unset : D) (i key : ℕ) (t : TimerTree D) (h : i < t.next) (v : IsValid t) where
    abbrev inserted : TimerTree D
    inserted = insert_child unset i key t

    abbrev allocated : ℕ → TreeNode D
    allocated = write t.nodes t.next (new_node unset key (some i))

    abbrev with_child : TreeNode D
    with_child = record (t.nodes i) {
      children_map = (key, t.next) ∷ (t.nodes i).children_map;
      children_storage = (t.nodes i).children_storage ++ t.next ∷ [];
    }

    inserted-new : inserted.nodes t.next ≡ new_node unset key (some i)
    inserted-new =
        write-other allocated i t.next with_child (λ e. omega arith)
        ∙ write-same t.nodes t.next (new_node unset key (some i))

    inserted-other : (j : ℕ) → (j ≡ i → ⊥) → (j ≡ t.next → ⊥) → inserted.nodes j ≡ t.nodes j
    inserted-other j n m =
        write-other allocated i j with_child n
        ∙ write-other t.nodes t.next j (new_node unset key (some i)) m

    inserted-at : inserted.nodes i ≡ with_child
    inserted-at = write-same allocated i with_child

    inserted-parent : (c : ℕ) → c < t.next → (inserted.nodes c).parent_ptr ≡ (t.nodes c).parent_ptr
    inserted-parent c l = elim (ℕ_discrete c i) [
      | yes e ↦
          subst (λ x. (inserted.nodes x).parent_ptr ≡ (t.nodes x).parent_ptr) (sym e)
            (ap (λ (n : TreeNode D). n.parent_ptr) inserted-at)
      | no n ↦ ap (λ (n : TreeNode D). n.parent_ptr) (inserted-other c n (λ e. omega arith))
    ]

    IsChild : ℕ → ℕ → Type 0
    IsChild j c = (j < c) × (c < suc t.next) × ((inserted.nodes c).parent_ptr ≡ some j)

    IsChild-at :
        (k c : ℕ) → find k ((key, t.next) ∷ (t.nodes i).children_map) ≡ some c → IsChild i c
    unfolding IsChild
    IsChild-at k c f = elim (Bool-cases (key == k)) [
      | inl y ↦
          let e : t.next ≡ c = some-injective (rw y at f) in
          subst (λ x. (i < x) × (x < suc t.next) × ((inserted.nodes x).parent_ptr ≡ some i)) e
            (h, omega arith, ap (λ (n : TreeNode D). n.parent_ptr) inserted-new)
      | inr n ↦
          let (a, b, p) = v.child i k c h (rw n at f) in (a, omega arith, inserted-parent c b ∙ p)
    ]

    inserted-IsChild :
        (j k c : ℕ) → j < suc t.next → find k (inserted.nodes j).children_map ≡ some c → IsChild j c
    unfolding IsChild
    inserted-IsChild j k c l f = elim (ℕ_discrete j i) [
      | yes e ↦
          subst (λ x. IsChild x c) (sym e)
            (IsChild-at k c (
              sym
                (ap (λ (n : TreeNode D). find k n.children_map) (ap inserted.nodes e ∙ inserted-at))
              ∙ f))
      | no n ↦ elim (ℕ_discrete j t.next) [
        | yes e ↦ absurd (
            none-some (
              sym (
                ap (λ (n : TreeNode D). find k n.children_map) (ap inserted.nodes e ∙ inserted-new))
              ∙ f))
        | no m ↦
            let (a, b, p) =
              v.child j k c (omega arith)
                (sym (ap (λ (n : TreeNode D). find k n.children_map) (inserted-other j n m)) ∙ f) in
            (a, omega arith, inserted-parent c b ∙ p)
      ]
    ]

    inserted-IsValid : IsValid inserted
    unfolding IsChild
    inserted-IsValid = record { child = inserted-IsChild }

    inserted-Keeps : Keeps i t inserted
    inserted-Keeps = record {
      grows = omega arith;
      before = λ j l. inserted-other j (λ e. omega arith) (λ e. omega arith);
      parent = ap (λ (n : TreeNode D). n.parent_ptr) inserted-at;
      active = ap (λ (n : TreeNode D). n.is_active) inserted-at;
      started = ap (λ (n : TreeNode D). n.start) inserted-at;
      measured = ap (λ (n : TreeNode D). n.durations) inserted-at;
    }

  -- `find_or_insert` gives a child with the key, and the durations that the key has had so far.
  unfoldable pub Found : ℕ → ℕ → TimerTree D → ℕ → TimerTree D → Type 0
  Found i key t c t' =
      IsValid t'
      × Keeps i t t'
      × (find key (t'.nodes i).children_map ≡ some c)
      × ((t'.nodes c).durations ≡ durations_of t i key)

  pub find_or_insert-Found :
      (unset : D) (i key : ℕ) (t : TimerTree D)
      → i < t.next
      → IsValid t
      → Found i key t (find_or_insert unset i key t).0 (find_or_insert unset i key t).1
  unfolding find_or_insert Found
  find_or_insert-Found unset i key t h v = elim (Option-cases (find key (t.nodes i).children_map)) [
    | inl e ↦ rw e (
      inserted-IsValid unset i key t h v,
      inserted-Keeps unset i key t h v,
      ap (λ (n : TreeNode D). find key n.children_map) (inserted-at unset i key t h v)
          ∙ rw (==_refl key) refl,
      ap (λ (n : TreeNode D). n.durations) (inserted-new unset i key t h v),
    )
    | inr (c, e) ↦ rw e (v, Keeps-refl i t, e, refl)
  ]
