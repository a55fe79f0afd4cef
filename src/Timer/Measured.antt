-- ===== src/Timer/Measured.antt =====
-- Nested measurements: what a program of starts and stops leaves in the tree.
use mping.Prelude.{
  ℕ_discrete, subst, ℕ, ◌≤◌, ◌<◌, ◌≡◌, refl, ap, ap₂, sym, ◌∙◌, true, List, Option, none, some,
  ◌>>=◌, arith,
}
use mping.Timer.{
  LocalAggregationMode, GlobalAggregationMode, TreeNode, TimerTree, find, write, init,
  find_or_insert, activate, start_impl, aggregate_measurements_locally, deactivate, stop_impl,
  Program, done, measure, run,
}
use mping.Timer.Nodes.{
  IsValid, Keeps, Keeps-refl, Keeps-trans, durations_at, durations_of, Found, find_or_insert-Found,
  write-same, write-other,
}

chain_two :
    {B C E : Type 0} (n : Option B) (g : B → Option C) (h : C → Option E) {z : C} {y : E}
    → (n >>= g) ≡ some z
    → h z ≡ some y
    → (n >>= λ w. g w >>= h) ≡ some y
chain_two none g h e f = absurd cc
chain_two (some w) g h e f = rw e f

module _ {A B C E : Type 0} where
  -- A step behind a chain that succeeds.
  chain :
      (m : Option A) (f : A → Option B) (g : B → Option C) (h : C → Option E) {z : C} {y : E}
      → (m >>= λ u. f u >>= g) ≡ some z
      → h z ≡ some y
      → (m >>= λ u. f u >>= λ w. g w >>= h) ≡ some y
  chain none f g h e k = absurd cc
  chain (some u) f g h e k = chain_two (f u) g h e k

module _ {D : Type 0} where
  -- A write of a node's own measurement.
  module _ (t : TimerTree D) (c : ℕ) (n : TreeNode D) (current : Option ℕ) where
    abbrev rewritten : TimerTree D
    rewritten = record t { nodes = write t.nodes c n; current_node = current }

    rewritten-field :
        {B : Type 0} (f : TreeNode D → B)
        → f n ≡ f (t.nodes c)
        → (j : ℕ) → f (rewritten.nodes j) ≡ f (t.nodes j)
    rewritten-field f e j = elim (ℕ_discrete j c) [
      | yes q ↦
          subst (λ x. f (rewritten.nodes x) ≡ f (t.nodes x)) (sym q)
            (ap f (write-same t.nodes c n) ∙ e)
      | no m ↦ ap f (write-other t.nodes c j n m)
    ]

    rewritten-IsValid :
        n.children_map ≡ (t.nodes c).children_map
        → n.parent_ptr ≡ (t.nodes c).parent_ptr
        → IsValid t
        → IsValid rewritten
    rewritten-IsValid m p v = record {
      child = λ i k d l f.
          let (a, b, q) =
            v.child i k d l
              (ap (find k) (sym (rewritten-field (λ (x : TreeNode D). x.children_map) m i)) ∙ f) in
          (a, b, rewritten-field (λ (x : TreeNode D). x.parent_ptr) p d ∙ q);
    }

    rewritten-Keeps : (i : ℕ) → i < c → Keeps i t rewritten
    rewritten-Keeps i l =
        let same : (j : ℕ) → j ≤ i → rewritten.nodes j ≡ t.nodes j =
          λ j m. write-other t.nodes c j n (λ e. omega arith) in
        let at_i = same i (omega arith) in
        record {
          grows = omega arith;
          before = λ j m. same j (omega arith);
          parent = ap (λ (x : TreeNode D). x.parent_ptr) at_i;
          active = ap (λ (x : TreeNode D). x.is_active) at_i;
          started = ap (λ (x : TreeNode D). x.start) at_i;
          measured = ap (λ (x : TreeNode D). x.durations) at_i;
        }

  -- What keeps a child's measurement keeps the nodes before it.
  Keeps-before : (i c : ℕ) (t t' : TimerTree D) → i < c → Keeps c t t' → Keeps i t t'
  Keeps-before i c t t' l k =
      let at_i = k.before i l in
      record {
        grows = k.grows;
        before = λ j m. k.before j (omega arith);
        parent = ap (λ (x : TreeNode D). x.parent_ptr) at_i;
        active = ap (λ (x : TreeNode D). x.is_active) at_i;
        started = ap (λ (x : TreeNode D). x.start) at_i;
        measured = ap (λ (x : TreeNode D). x.durations) at_i;
      }

  -- What `start` leaves: the child with the key runs, and is the current node.
  record Started (i key : ℕ) (started : D) (t t' : TimerTree D) (c : ℕ) : Type 0 where
    valid : IsValid t'
    current : t'.current_node ≡ some c
    behind : i < c
    allocated : c < t'.next
    keeps : Keeps i t t'
    found : find key (t'.nodes i).children_map ≡ some c
    active : (t'.nodes c).is_active ≡ true
    started_at : (t'.nodes c).start ≡ started
    durations : (t'.nodes c).durations ≡ durations_of t i key
    parent : (t'.nodes c).parent_ptr ≡ some i

  start-Started :
      (unset : D) (key : ℕ) (started : D) (i : ℕ) (t : TimerTree D)
      → IsValid t
      → i < t.next
      → t.current_node ≡ some i
      → (t' : TimerTree D) × (c : ℕ) × (start_impl unset key started t ≡ some t')
        × Started i key started t t' c
  unfolding start_impl activate Found
  start-Started unset key started i t v l e =
      let c = (find_or_insert unset i key t).0 in
      let u = (find_or_insert unset i key t).1 in
      let (w, k, f, d) = find_or_insert-Found unset i key t l v in
      let (b, a, p) = w.child i key c (omega (arith, k.grows)) f in
      let node = record (u.nodes c) { is_active = true; start = started } in
      let at_c = write-same u.nodes c node in
      let at_i = write-other u.nodes c i node (λ q. omega arith) in
      (
        activate c started u,
        c,
        rw e refl,
        record {
          valid = rewritten-IsValid u c node (some c) refl refl w;
          current = refl;
          behind = b;
          allocated = a;
          keeps = Keeps-trans i t u _ k (rewritten-Keeps u c node (some c) i b);
          found = ap (λ (x : TreeNode D). find key x.children_map) at_i ∙ f;
          active = ap (λ (x : TreeNode D). x.is_active) at_c;
          started_at = ap (λ (x : TreeNode D). x.start) at_c;
          durations = ap (λ (x : TreeNode D). x.durations) at_c ∙ d;
          parent = ap (λ (x : TreeNode D). x.parent_ptr) at_c ∙ p;
        },
      )

  module _ (plus minus : D → D → D) where
    record Stopped (i c : ℕ) (mode : LocalAggregationMode) (stopped : D) (t t' : TimerTree D)
        : Type 0 where
      valid : IsValid t'
      current : t'.current_node ≡ some i
      keeps : Keeps i t t'
      same : t'.nodes i ≡ t.nodes i
      durations :
          (t'.nodes c).durations
          ≡ aggregate_measurements_locally plus minus mode
              (minus stopped (t.nodes c).start)
              (t.nodes c).durations

    stop-Stopped :
        (mode : LocalAggregationMode) (modes : List GlobalAggregationMode) (stopped : D) (i c : ℕ)
        (t : TimerTree D)
        → IsValid t
        → t.current_node ≡ some c
        → (t.nodes c).is_active ≡ true
        → (t.nodes c).parent_ptr ≡ some i
        → i < c
        → (t' : TimerTree D) × (stop_impl plus minus mode modes stopped t ≡ some t')
          × Stopped i c mode stopped t t'
    unfolding stop_impl deactivate
    stop-Stopped mode modes stopped i c t v e a p b =
        let node = deactivate plus minus mode modes stopped (t.nodes c) in
        (
          rewritten t c node (some i),
          rw (e, a, p) refl,
          record {
            valid = rewritten-IsValid t c node (some i) refl refl v;
            current = refl;
            keeps = rewritten-Keeps t c node (some i) i b;
            same = write-other t.nodes c i node (λ q. omega arith);
            durations = ap (λ (x : TreeNode D). x.durations) (write-same t.nodes c node);
          },
        )

  module _ (plus minus : D → D → D) (unset : D) where
    -- The program inside a child's measurement, as far as the node `i` can tell.
    Runs : Program D → Type 0
    Runs p =
        (i : ℕ) (t : TimerTree D)
        → IsValid t
        → i < t.next
        → t.current_node ≡ some i
        → (t' : TimerTree D) × (run plus minus unset p t ≡ some t')
          × IsValid t'
          × (t'.current_node ≡ some i)
          × Keeps i t t'

    -- One measurement around such a program, from its start to its stop.
    measure-total :
        (key : ℕ) (started : D) (inside : Program D) (mode : LocalAggregationMode)
        (modes : List GlobalAggregationMode) (stopped : D)
        → Runs inside
        → (i : ℕ) (t : TimerTree D) → IsValid t
        → i < t.next
        → t.current_node ≡ some i
        → (t' : TimerTree D) × ((start_impl unset key started t >>= λ u.
              run plus minus unset inside u >>= λ w. stop_impl plus minus mode modes stopped w)
            ≡ some t')
          × IsValid t'
          × (t'.current_node ≡ some i)
          × Keeps i t t'
          × (durations_of t' i key
              ≡ aggregate_measurements_locally plus minus mode
                  (minus stopped started)
                  (durations_of t i key))
    unfolding Runs
    measure-total key started inside mode modes stopped ih i t v l e =
        let (u, c, su, a) = start-Started unset key started i t v l e in
        let (w, rw_, x, k, m) = ih c u a.valid a.allocated a.current in
        let (z, sz, b) =
          stop-Stopped plus minus mode modes stopped i c w x k (m.active ∙ a.active)
            (m.parent ∙ a.parent) a.behind in
        let at_i : z.nodes i ≡ u.nodes i = b.same ∙ m.before i a.behind in
        (
          z,
          rw (su, rw_, sz) refl,
          b.valid,
          b.current,
          Keeps-trans i t u z a.keeps
              (Keeps-trans i u w z (Keeps-before i c u w a.behind m) b.keeps),
          ap (durations_at z) (ap (λ (n : TreeNode D). find key n.children_map) at_i ∙ a.found)
              ∙ b.durations
              ∙ ap₂ (λ s d. aggregate_measurements_locally plus minus mode (minus stopped s) d)
                  (m.started ∙ a.started_at) (m.measured ∙ a.durations),
        )

    run-Runs : (p : Program D) → Runs p
    unfolding Runs run
    run-Runs done i t v l e = (t, refl, v, e, Keeps-refl i t)
    run-Runs (measure key started inside mode modes stopped after) i t v l e =
        let (z, sz, vz, ez, kz, dz) =
          measure-total key started inside mode modes stopped (run-Runs inside) i t v l e in
        let (y, sy, vy, ey, ky) = run-Runs after i z vz (omega (arith, kz.grows)) ez in
        (
          y,
          chain (start_impl unset key started t) (run plus minus unset inside)
              (stop_impl plus minus mode modes stopped) (run plus minus unset after) sz sy,
          vy,
          ey,
          Keeps-trans i t z y kz ky,
        )

    -- In a valid timer tree, nested starts and stops never fail, whatever their keys: they leave a
    -- valid tree, come back to the node that was current before, and leave its own measurement, its
    -- parent and every node before it as they were.
    pub run-Keeps :
        (p : Program D) (i : ℕ) (t : TimerTree D)
        → IsValid t
        → i < t.next
        → t.current_node ≡ some i
        → (t' : TimerTree D) × (run plus minus unset p t ≡ some t')
          × IsValid t'
          × (t'.current_node ≡ some i)
          × Keeps i t t'
    unfolding Runs
    run-Keeps p i t v l e = run-Runs p i t v l e

    -- In a valid timer tree, a measurement with any nested measurements inside it succeeds and adds
    -- the time between its start and its stop to the durations that its key has at the current
    -- node, in the way of its mode.
    pub run-durations :
        (key : ℕ) (started : D) (inside : Program D) (mode : LocalAggregationMode)
        (modes : List GlobalAggregationMode) (stopped : D) (i : ℕ) (t : TimerTree D)
        → IsValid t
        → i < t.next
        → t.current_node ≡ some i
        → (t' : TimerTree D) × (run plus minus unset
              (measure key started inside mode modes stopped done)
              t
            ≡ some t')
          × (durations_of t' i key
              ≡ aggregate_measurements_locally plus minus mode
                  (minus stopped started)
                  (durations_of t i key))
    unfolding run
    run-durations key started inside mode modes stopped i t v l e =
        let (z, sz, vz, ez, kz, dz) =
          measure-total key started inside mode modes stopped (run-Runs inside) i t v l e in
        (
          z,
          chain (start_impl unset key started t) (run plus minus unset inside)
              (stop_impl plus minus mode modes stopped) (run plus minus unset done) sz refl,
          dz,
        )

  -- The tree of a new timer.
  pub init-IsValid : (unset : D) → IsValid (init unset)
  unfolding init
  init-IsValid unset = record { child = λ i k c l f. absurd cc }
