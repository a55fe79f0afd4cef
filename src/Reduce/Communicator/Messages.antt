-- ===== src/Reduce/Communicator/Messages.antt =====
-- The reduction of a whole rank: what it sends, and what the origin gets.
use mathlib.Core.List.{append_assoc, append-nil}
use mping.Prelude.{
  ℕ, ◌+◌, ◌≤◌, ◌<◌, ◌≡◌, refl, ap, sym, ◌∙◌, subst, List, [], ◌∷◌, ◌++◌, Option, none, some, ltb,
  true, false, Bool, if◌then◌else◌, arith,
}
use mping.Reduce.{tree_height, tree_rank_from_index_map}
use mping.Reduce.Bits.{tree_parent, tree_subtree_size}
use mping.Reduce.Tree.{node}
use mping.Reduce.Buffer.{MessageBuffer, MessageBufferEntry, flush, wait}
use mping.Reduce.Buffer.Fifo.{IsValid, accepted, put-accepted}
use mping.Reduce.Buffer.Values.{IsInformed, put-IsInformed, flush-IsInformed, waited-IsInformed}
use mping.Reduce.Communicator.{
  ReproducibleCommunicator, perform_reduce_at, send_subtree, send_subtrees, perform_reduce,
  tree_rank_intersecting_elements,
}
use mping.Reduce.Communicator.Levels.{Right, IsRight}
use mping.Reduce.Communicator.Values.{
  IsSetUp, perform_reduce_at-inner, perform_reduce_at-root, tree_rank-total,
}
use mping.Reduce.Communicator.Elements.{odd_shifted, Tiles, tree_rank_intersecting_elements-Tiles}

module _ {ℓ} {A : Type ℓ} (op : A → A → A) (at : ℕ → A) where
  -- A message for the rank that holds the parent of the index, with the value of its subtree.
  abbrev pub ToParent : ReproducibleCommunicator A → ℕ → ℕ × MessageBufferEntry A → Type ℓ
  ToParent c x (target, e) =
      (e.index ≡ x)
      × Right op c.global_size at x e.value
      × ((parent : ℕ) × (tree_parent x ≡ some parent)
          × (tree_rank_from_index_map c.start_indices parent ≡ some target))

  -- One such message for each index.
  pub data Sent (c : ReproducibleCommunicator A)
      : List ℕ → List (ℕ × MessageBufferEntry A) → Type ℓ where
    none_sent : Sent c [] []
    one_sent :
        {x : ℕ} {m : ℕ × MessageBufferEntry A} {elements : List ℕ}
        {messages : List (ℕ × MessageBufferEntry A)}
        → ToParent c x m
        → Sent c elements messages
        → Sent c (x ∷ elements) (m ∷ messages)

  module _ (c : ReproducibleCommunicator A) (brings : ℕ → ℕ → Option (List (MessageBufferEntry A)))
      (buffer : List A) where
    with_buffer :
        (s s' : MessageBuffer A)
        → IsSetUp op at c brings buffer s
        → IsValid s'
        → IsInformed (Right op c.global_size at) s'
        → IsSetUp op at c brings buffer s'
    with_buffer s s' h v k = record {
      first_rank = h.first_rank;
      rest = h.rest;
      from_zero = h.from_zero;
      region = h.region;
      room = h.room;
      holds = h.holds;
      answers = h.answers;
      right = (v, k, refl);
      small = h.small;
    }

    -- The value of a local index is right, and the buffer has accepted nothing more.
    reduced-Right :
        (x : ℕ) (s : MessageBuffer A)
        → IsSetUp op at c brings buffer s
        → 0 < x
        → c.region_begin ≤ x
        → x < c.region_begin + c.region_size
        → (v : A) × (s' : MessageBuffer A) × (perform_reduce_at op brings c x buffer s
            ≡ some (v, s'))
          × Right op c.global_size at x v
          × IsRight op c.global_size at (accepted s) s'
    reduced-Right x s h pos low high =
        let (k, m, e) = odd_shifted x x (omega arith) pos in
        let (s', right, computed) =
          perform_reduce_at-inner op at c brings buffer s h k m (omega (arith, e))
            (omega (arith, e)) in
        let at_x =
          subst
            (λ i.
              perform_reduce_at op brings c i buffer s ≡ some (node op c.global_size at k i, s'))
            (sym e) computed in
        (
          node op c.global_size at k x,
          s',
          at_x,
          λ y m' e'.
              let (t, right_t, computed_t) =
                perform_reduce_at-inner op at c brings buffer s h y m' (omega (arith, e'))
                  (omega (arith, e')) in
              let at_y =
                subst
                  (λ i.
                    perform_reduce_at op brings c i buffer s
                    ≡ some (node op c.global_size at y i, t))
                  (sym e') computed_t in
              cc (sym at_x ∙ at_y),
          right,
        )

    send_subtree-Sent :
        (x parent : ℕ) (s : MessageBuffer A)
        → IsSetUp op at c brings buffer s
        → 0 < x
        → c.region_begin ≤ x
        → x < c.region_begin + c.region_size
        → tree_parent x ≡ some parent
        → (m : ℕ × MessageBufferEntry A) × (s' : MessageBuffer A) × (send_subtree op brings c buffer
              x s
            ≡ some s')
          × ToParent c x m
          × IsRight op c.global_size at (accepted s ++ m ∷ []) s'
    unfolding send_subtree
    send_subtree-Sent x parent s h pos low high parent_of =
        let (target, ranked) =
          (let t : (r : ℕ) × (tree_rank_from_index_map c.start_indices parent ≡ some r) =
              rw h.from_zero (tree_rank-total h.first_rank h.rest parent) in
            t) in
        let start = if ltb 16 (tree_subtree_size x) then flush s else s in
        let started : IsRight op c.global_size at (accepted s) start =
          maybe_flush (ltb 16 (tree_subtree_size x)) s h.right in
        let (v, reduced, computed, v_right, kept) =
          reduced-Right x start (with_buffer s start h started.0 started.1) pos low high in
        let (s', stored, valid, more) = put-accepted target x v reduced kept.0 in
        (
          (target, record { index = x; value = v }),
          s',
          rw (parent_of, ranked, computed) stored,
          (refl, v_right, (parent, parent_of, ranked)),
          (
            valid,
            put-IsInformed (Right op c.global_size at) target x v reduced s' stored kept.1,
            more
                ∙ ap (λ l. l ++ (target, record { index = x; value = v }) ∷ [])
                    (kept.2 ∙ started.2),
          ),
        )
      where
        maybe_flush :
            (b : Bool) (s : MessageBuffer A)
            → IsRight op c.global_size at (accepted s) s
            → IsRight op c.global_size at (accepted s) (if b then flush s else s)
        maybe_flush true s r = flush-IsInformed (Right op c.global_size at) s r.0 r.1
        maybe_flush false s r = r

    send_subtrees-Sent :
        (elements : List ℕ) (index : ℕ) (s : MessageBuffer A)
        → IsSetUp op at c brings buffer s
        → 0 < c.region_begin
        → c.region_begin ≤ index
        → Tiles c.region_begin (c.region_begin + c.region_size) index elements
        → (messages : List (ℕ × MessageBufferEntry A)) × (s' : MessageBuffer A) × (send_subtrees op
              brings c buffer elements s
            ≡ some s')
          × Sent c elements messages
          × IsRight op c.global_size at (accepted s ++ messages) s'
    unfolding send_subtrees
    send_subtrees-Sent [] index s h pos low tiles =
        ([], s, refl, none_sent, (h.right.0, h.right.1, sym (append-nil (accepted s))))
    send_subtrees-Sent (x ∷ elements) index s h pos low
          (x_is, inside, (parent, parent_of, before), tiles) =
        let (m, s', sent, to_parent, right) =
          send_subtree-Sent x parent s h (omega arith) (omega arith) (omega arith)
            (ap tree_parent x_is ∙ parent_of) in
        let (messages, s'', rest, all_sent, right') =
          send_subtrees-Sent elements (index + tree_subtree_size index) s'
            (with_buffer s s' h right.0 right.1) pos (omega arith) tiles in
        (
          m ∷ messages,
          s'',
          rw sent rest,
          one_sent to_parent all_sent,
          (
            right'.0,
            right'.1,
            right'.2
                ∙ ap (λ l. l ++ messages) right.2
                ∙ append_assoc (accepted s) (m ∷ []) messages,
          ),
        )

    flushed :
        (s : MessageBuffer A) (messages : List (ℕ × MessageBufferEntry A))
        → IsRight op c.global_size at messages s
        → IsRight op c.global_size at messages (wait (flush s))
    flushed s messages r =
        let (v, k, same) = flush-IsInformed (Right op c.global_size at) s r.0 r.1 in
        let (v', k', same') = waited-IsInformed (Right op c.global_size at) (flush s) v k in
        (v', k', same' ∙ same ∙ r.2)

    -- On every rank whose region does not start the array, under the same conditions, the reduction
    -- succeeds; the entries that its message buffer has accepted behind those before are one for
    -- each index in the region whose parent lies before the region, in order, for the rank that
    -- holds the parent, and with the value of the subtree, which is what the other ranks assume of
    -- the messages.
    pub perform_reduce-Sent :
        (s : MessageBuffer A)
        → IsSetUp op at c brings buffer s
        → 0 < c.region_begin
        → (elements : List ℕ) × (messages : List (ℕ × MessageBufferEntry A)) × (s' : MessageBuffer
            A)
          × (tree_rank_intersecting_elements c.region_begin (c.region_begin + c.region_size)
              ≡ some elements)
          × Tiles c.region_begin (c.region_begin + c.region_size) c.region_begin elements
          × (perform_reduce op brings c elements false buffer s ≡ some (none, s'))
          × Sent c elements messages
          × IsRight op c.global_size at (accepted s ++ messages) s'
    unfolding perform_reduce
    perform_reduce-Sent s h pos =
        let (elements, computed, tiles) =
          tree_rank_intersecting_elements-Tiles c.region_begin (c.region_begin + c.region_size) pos
            (omega arith) (omega (arith, h.region, h.small)) in
        let (messages, s', sent, all_sent, right) =
          send_subtrees-Sent elements c.region_begin s h pos (omega arith) tiles in
        (
          elements,
          messages,
          wait (flush s'),
          computed,
          tiles,
          rw sent refl,
          all_sent,
          flushed s' _ right,
        )

    -- If the rank that holds the start of an array of at least 2 and at most 2^63 elements has its
    -- communicator set up for it, and each message that comes for a get has the index asked for and
    -- the values of the subtrees, then its reduction sends nothing and succeeds with the value of
    -- the reduction tree on the whole array: the result depends on the array and the operation
    -- alone, not on how much of the array the rank holds. Each write into the buffer that it also
    -- reads from is inside that buffer.
    pub perform_reduce-origin :
        (s : MessageBuffer A)
        → IsSetUp op at c brings buffer s
        → 1 < c.global_size
        → c.region_begin ≡ 0
        → 0 < c.region_size
        → (s' : MessageBuffer A) × (tree_rank_intersecting_elements c.region_begin
              (c.region_begin + c.region_size)
            ≡ some [])
          × (perform_reduce op brings c [] true buffer s
              ≡ some (some (node op c.global_size at (tree_height c.global_size) 0), s'))
          × IsRight op c.global_size at (accepted s) s'
    unfolding perform_reduce tree_rank_intersecting_elements send_subtrees
    perform_reduce-origin s h several first some_local =
        let waited = wait (flush s) in
        let right = flushed s (accepted s) h.right in
        let (s', right', computed) =
          perform_reduce_at-root op at c brings buffer waited
            (with_buffer s waited h right.0 right.1) several first some_local in
        (s', rw first refl, rw computed refl, (right'.0, right'.1, right'.2 ∙ right.2))
