-- ===== src/Reduce/Communicator/Levels.antt =====
-- One level of the reduction of a subtree, and all of them.
use mping.Prelude.{
  ℕ, zero, suc, ◌+◌, ◌-◌, ◌*◌, ◌/◌, ◌≤◌, ◌<◌, ◌≡◌, refl, ap, ap₂, sym, ◌∙◌, subst, inl, inr, List,
  Option, none, some, length, length-set, get_elem?, get_elem?-set_self, get_elem?-set_ne, set, ltb,
  ◌==◌, Bool-cases, ℕ_discrete, dec_lt, arith,
}
use mping.Reduce.{power_of_two, tree_rank_from_index_map}
use mping.Reduce.Bits.{shifted, shifted-pos}
use mping.Reduce.Tree.{
  node, node-zero, node-op, node-alone, scale_mono, scale_even, scale_odd, scale_pred,
  shifted-scale,
}
use mping.Reduce.Buffer.{MessageBuffer, MessageBufferEntry}
use mping.Reduce.Buffer.Fifo.{IsValid, accepted}
use mping.Reduce.Buffer.Runs.{Contains}
use mping.Reduce.Buffer.Values.{AllRight, IsInformed, get-right, get-recv}
use mping.Reduce.Communicator.{source_at, pair_loop, combine_last, finish_level, level_loop}
use mping.Reduce.Communicator.Pairs.{Reads, write-some, pair_loop-Paired}

odd_sum : (q k p : ℕ) → q * (2 * p) + (2 * k + 1) * p ≡ (2 * (q + k) + 1) * p
odd_sum q k p = grind arith

-- The shape of the subtree at `index`: up to `max_x`, of height `max_y`.
pub record Subtree (global_size index max_x max_y : ℕ) : Type 0 where
  pub inside : max_x < global_size
  pub aligned : (y : ℕ) → y < max_y → (q : ℕ) × (index ≡ q * power_of_two (suc y))
  pub closed :
      (y k : ℕ)
      → y < max_y
      → index + 2 * k * power_of_two y ≤ max_x
      → max_x < index + (2 * k + 1) * power_of_two y
      → global_size ≤ index + (2 * k + 1) * power_of_two y
  pub bounded : max_x < index + power_of_two max_y

module _ {ℓ} {A : Type ℓ} (op : A → A → A) (global_size : ℕ) (at : ℕ → A) where
  -- The value of an index that is not the first one is that of its subtree.
  abbrev pub Right : ℕ → A → Type ℓ
  Right i v = (y m : ℕ) → i ≡ shifted y (2 * m + 1) → v ≡ node op global_size at y i

  -- What the messages bring for the indices of the array, from the rank that has them.
  abbrev pub Brings : List (ℕ × ℕ) → (ℕ → ℕ → Option (List (MessageBufferEntry A))) → Type ℓ
  Brings start_indices brings =
      (source i : ℕ)
      → i < global_size
      → tree_rank_from_index_map start_indices i ≡ some source
      → (entries : List (MessageBufferEntry A)) × (brings source i ≡ some entries)
        × Contains i entries
        × AllRight Right entries

  -- Any value is right at the start of the array, which no rank asks another one for.
  pub start-Right : (v : A) → Right 0 v
  start-Right v y m e = absurd (omega (arith, e, shifted-pos y m))

  -- The buffer is valid, has right values, and has accepted just these entries.
  abbrev pub IsRight : List (ℕ × MessageBufferEntry A) → MessageBuffer A → Type ℓ
  IsRight entries s = IsValid s × IsInformed Right s × (accepted s ≡ entries)

  module _ (start_indices : List (ℕ × ℕ)) (brings : ℕ → ℕ → Option (List (MessageBufferEntry A)))
      (sent : List (ℕ × MessageBufferEntry A)) (index max_x max_y local_end : ℕ)
      (found : (i : ℕ) → (rank : ℕ) × (tree_rank_from_index_map start_indices i ≡ some rank))
      (answers : Brings start_indices brings) (shape : Subtree global_size index max_x max_y)
      (local_inside : local_end ≤ suc max_x) where
    abbrev value_at : ℕ → ℕ → A
    value_at y i = node op global_size at y (index + i * power_of_two y)

    -- Before level `y + 1` the elements are the nodes of height `y` that start at a local index.
    record Level (y : ℕ) (source : Option (List A)) (elements : ℕ) (dest : List A) : Type ℓ where
      reads : Reads source dest 0 elements (value_at y)
      some_left : 0 < elements
      starts : index + (elements - 1) * power_of_two y < local_end
      covers : local_end ≤ index + elements * power_of_two y
      room : elements ≤ 2 * length dest

    combine_last-value :
        (y k : ℕ) (s : MessageBuffer A)
        → y < max_y
        → index + 2 * k * power_of_two y ≤ max_x
        → IsRight sent s
        → (s' : MessageBuffer A) × IsRight sent s'
          × (combine_last op start_indices brings index max_x
                (index + (2 * k + 1) * power_of_two y)
                (value_at y (2 * k))
                s
              ≡ some (value_at (suc y) k, s'))
    unfolding combine_last
    combine_last-value y k s below first right =
        let p = power_of_two y in
        let b = index + (2 * k + 1) * p in
        let start : index + 2 * k * p ≡ index + k * (2 * p) =
          ap (λ t. index + t) (scale_even k p) in
        let end : index + k * (2 * p) + p ≡ b = omega (arith, scale_odd k p) in
        elim (Bool-cases (ltb max_x b)) [
          | inl outside ↦ (
            s,
            right,
            rw outside (
                ap (λ v. some (v, s))
                  (ap (node op global_size at y) start
                    ∙ sym (
                        node-alone op global_size at y (index + k * (2 * p))
                          (rw end (shape.closed y k below first (ground arith)))))),
          )
          | inr within ↦
              let (rank, ranked) = found b in
              let in_array : b < global_size = ground (arith, shape.inside) in
              let (entries, brought, contained, entries_right) = answers rank b in_array ranked in
              let (v, s', got, valid, v_right, kept, same) =
                get-right Right rank b entries s start-Right contained right.0 entries_right
                  right.1 in
              let (q, at_q) = shape.aligned y below in
              let b_shifted : b ≡ shifted y (2 * (q + k) + 1) =
                (rw at_q (odd_sum q k p)) ∙ sym (shifted-scale y (2 * (q + k) + 1)) in
              (
                s',
                (valid, kept, same ∙ right.2),
                rw (within, ranked)
                    (rw (get-recv (λ r. brings r b) rank b entries s brought ∙ got) (
                      ap (λ w. some (w, s'))
                        (ap₂ op (ap (node op global_size at y) start)
                            (v_right y (q + k) b_shifted ∙ ap (node op global_size at y) (sym end))
                          ∙ sym (
                              node-op op global_size at y (index + k * (2 * p))
                                (omega (arith, end, in_array)))))),
              )
        ]

    pair-value :
        (y i elements : ℕ)
        → 2 * i + 1 < elements
        → index + (elements - 1) * power_of_two y < local_end
        → op (value_at y (2 * i)) (value_at y (2 * i + 1)) ≡ value_at (suc y) i
    pair-value y i elements l starts =
        let p = power_of_two y in
        let start : index + 2 * i * p ≡ index + i * (2 * p) =
          ap (λ t. index + t) (scale_even i p) in
        let second : index + (2 * i + 1) * p ≡ index + i * (2 * p) + p =
          omega (arith, scale_odd i p) in
        let in_array : index + i * (2 * p) + p < global_size =
          omega
            (arith, second, scale_mono (2 * i + 1) (elements - 1) p (omega arith), shape.inside) in
        ap₂ op (ap (node op global_size at y) start) (ap (node op global_size at y) second)
        ∙ sym (node-op op global_size at y (index + i * (2 * p)) in_array)

    record Stepped (y : ℕ) (source : Option (List A)) (elements : ℕ) (dest : List A)
        (s : MessageBuffer A) : Type ℓ where
      paired : List A
      pairs_made : pair_loop op source (elements / 2) 0 dest ≡ some paired
      left : ℕ
      dest' : List A
      s' : MessageBuffer A
      finished :
          finish_level op start_indices brings index max_x (power_of_two y) source elements paired s
          ≡ some (left, dest', s')
      level : Level (suc y) none left dest'
      right : IsRight sent s'

    step-Level :
        (y : ℕ) (source : Option (List A)) (elements : ℕ) (dest : List A) (s : MessageBuffer A)
        → y < max_y
        → Level y source elements dest
        → IsRight sent s
        → Stepped y source elements dest s
    unfolding finish_level
    step-Level y source elements dest s below l right =
        let h = elements / 2 in
        let p = power_of_two y in
        let pl =
          pair_loop-Paired op source dest 0 h elements (value_at y)
            (λ i le lt. l.reads i (omega arith) lt) (omega arith) (omega (arith, l.room)) in
        let pairs_at : (i : ℕ) → i < h → get_elem? pl.paired i ≡ some (value_at (suc y) i) = λ i m.
          pl.written i (omega arith) (omega arith)
          ∙ ap some (pair-value y i elements (omega arith) l.starts) in
        elim (Bool-cases (elements - 2 * h == 0)) [
          | inl even ↦
              let whole : elements ≡ 2 * h = ground arith in
              record {
                paired = pl.paired;
                pairs_made = pl.computed;
                left = h;
                dest' = pl.paired;
                s' = s;
                finished = rw even refl;
                level = record {
                  reads = λ i le m. pairs_at i m;
                  some_left = omega (arith, l.some_left);
                  starts = omega (
                    arith,
                    l.starts,
                    l.some_left,
                    scale_even (h - 1) p,
                    scale_mono (2 * (h - 1)) (elements - 1) p (omega arith),
                  );
                  covers = omega (arith, l.covers, scale_even h p, ap (λ t. t * p) whole);
                  room = omega (arith, l.room, pl.same_length);
                };
                right = right;
              }
          | inr odd ↦
              let whole : elements ≡ 2 * h + 1 = ground arith in
              let (s', right', combined) =
                combine_last-value y h s below
                  (omega (
                    arith,
                    l.starts,
                    ap (λ t. (t - 1) * p) whole,
                    (let same : 2 * h + 1 - 1 ≡ 2 * h = omega arith in ap (λ t. t * p) same),
                  ))
                  right in
              let v = value_at (suc y) h in
              let fits : h < length pl.paired = omega (arith, l.room, pl.same_length) in
              let last : source_at source pl.paired (elements - 1) ≡ some (value_at y (2 * h)) =
                pl.reads (elements - 1) (omega arith) (omega arith)
                ∙ ap (λ i. some (value_at y i)) (omega arith) in
              let at_b : index + (elements - 1) * p + p ≡ index + (2 * h + 1) * p =
                omega (arith, scale_pred elements p l.some_left, ap (λ t. t * p) whole) in
              record {
                paired = pl.paired;
                pairs_made = pl.computed;
                left = h + 1;
                dest' = set pl.paired h v;
                s' = s';
                finished = rw (odd, last, at_b, combined, write-some pl.paired h v fits) refl;
                level = record {
                  reads = λ i le m. elim (ℕ_discrete i h) [
                    | yes e ↦ rw e (get_elem?-set_self pl.paired h v fits)
                    | no other ↦
                        get_elem?-set_ne pl.paired v (λ e. other (sym e)) ∙ pairs_at i (omega arith)
                  ];
                  some_left = omega arith;
                  starts = omega (
                    arith,
                    l.starts,
                    scale_even h p,
                    scale_mono (2 * h) (elements - 1) p (omega arith),
                    (let same : h + 1 - 1 ≡ h = omega arith in ap (λ t. t * (2 * p)) same),
                  );
                  covers = omega (
                    arith,
                    l.covers,
                    scale_even (h + 1) p,
                    scale_mono elements (2 * (h + 1)) p (omega arith),
                  );
                  room = omega (arith, l.room, pl.same_length, length-set pl.paired h v);
                };
                right = right';
              }
        ]

    -- At the top one element is left.
    one_left : (elements : ℕ) (dest : List A) → Level max_y none elements dest → elements ≡ 1
    one_left elements dest l = elim (dec_lt 1 elements) [
      | yes more ↦ absurd (
          omega (
            arith,
            l.starts,
            shape.bounded,
            scale_mono 1 (elements - 1) (power_of_two max_y) (omega arith),
          ))
      | no few ↦ omega (arith, l.some_left)
    ]

    Reduced : ℕ → ℕ → Option (List A) → ℕ → List A → MessageBuffer A → Type ℓ
    Reduced levels y source elements dest s =
        (s' : MessageBuffer A) × IsRight sent s'
        × (level_loop op start_indices brings index max_x levels y source elements dest s
            ≡ some (node op global_size at max_y index, s'))

    levels-Reduced :
        (levels y elements : ℕ) (dest : List A) (s : MessageBuffer A)
        → levels + y ≡ max_y
        → Level y none elements dest
        → IsRight sent s
        → Reduced levels y none elements dest s
    unfolding Reduced level_loop
    levels-Reduced zero y elements dest s e l right =
        let at_top : y ≡ max_y = omega arith in
        let l' = subst (λ t. Level t none elements dest) at_top l in
        let one = one_left elements dest l' in
        let top : get_elem? dest 0 ≡ some (node op global_size at max_y index) =
          l'.reads 0 (omega arith) (omega arith)
          ∙ ap (λ x. some (node op global_size at max_y x)) (omega arith) in
        (s, right, rw (one, top) refl)
    levels-Reduced (suc levels) y elements dest s e l right =
        let st = step-Level y none elements dest s (omega arith) l right in
        let (s', right', rest) =
          levels-Reduced levels (suc y) st.left st.dest' st.s' (omega arith) st.level st.right in
        (s', right', rw (st.pairs_made, st.finished) rest)

    -- The first level reads from the caller's buffer.
    pub reduce_levels :
        (buffer : List A) (elements : ℕ) (dest : List A) (s : MessageBuffer A)
        → 0 < max_y
        → ((i : ℕ) → i < elements → get_elem? buffer i ≡ some (at (index + i)))
        → index + elements ≡ local_end
        → 0 < elements
        → elements ≤ 2 * length dest
        → IsRight sent s
        → (s' : MessageBuffer A) × IsRight sent s'
          × (level_loop op start_indices brings index max_x max_y 0 (some buffer) elements dest s
              ≡ some (node op global_size at max_y index, s'))
    unfolding Reduced level_loop
    reduce_levels buffer elements dest s tall same ends some_left room right =
        let first : Level 0 (some buffer) elements dest = record {
          reads = λ i le l.
              same i l
              ∙ ap some ((ap at (omega arith) ∙ sym (node-zero op global_size at (index + i * 1))));
          some_left = some_left;
          starts = omega arith;
          covers = omega arith;
          room = room;
        } in
        let st = step-Level 0 (some buffer) elements dest s tall first right in
        let top : max_y ≡ suc (max_y - 1) = omega arith in
        let (s', right', rest) =
          levels-Reduced (max_y - 1) 1 st.left st.dest' st.s' (omega arith) st.level st.right in
        (
          s',
          right',
          subst
              (λ t.
                level_loop op start_indices brings index max_x t 0 (some buffer) elements dest s
                ≡ some (node op global_size at max_y index, s'))
              (sym top) (rw (st.pairs_made, st.finished) rest),
        )
