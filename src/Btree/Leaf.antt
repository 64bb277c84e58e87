-- ===== src/Btree/Leaf.antt =====
-- A tree of one leaf: what an insertion leaves in its page and what a lookup then finds.
use kdbs.Common.{
  ℕ, ◌<◌, ◌≡◌, ◌≢◌, refl, ap, ◌∙◌, arith, true, false, ◌&&◌, [], ◌∷◌, ltb, ◌==◌, ok, eexist, lt→ltb,
  ltb→lt, Bool-cases, inl, inr, some,
}
use kdbs.Btree.Node.{
  at_level, at_count, at_key, at_slot, btree_search_position, btree_node_insert_at, match_from,
}
use kdbs.Btree.Program.{
  caught, from_result, continue, >>=-done, >>=-failed, done, failed, ◌>>◌, change, attempt,
}
use kdbs.Btree.Tree.{
  arrive, visit, insert_found, index_arrive, index_visit, take_slot, Pages, descend,
  load_btree_node, store_btree_node, btree_cursor_cleanup, kds_btree_cursor_search,
  kds_btree_cursor_insert, btree_insert, index_descend, kds_index_search,
}

-- The page `id` can be loaded in `s`, is a B-tree leaf and has the words `w`; its frame is `f` and
-- the pool goes to `s'`.
record LoadsLeaf {S : Type 0} (ops : Pages S) (s s' : S) (id f : ℕ) (w : ℕ → ℕ) : Type 0 where
  loads : ops.lookup_or_load s id ≡ (s', ok f)
  is_btree : ops.is_btree_page f s' ≡ true
  has_words : ops.read_words f s' ≡ w
  is_leaf : w at_level ≡ 0

absent :
    (w : ℕ → ℕ) (key p : ℕ)
    → ((i : ℕ) → i < w at_count → w (at_key i) ≢ key)
    → (ltb p (w at_count) && w (at_key p) == key) ≡ false
absent w key p fresh = elim (Bool-cases (ltb p (w at_count))) [
  | inl e ↦ ground (arith, e, fresh p (ltb→lt p (w at_count) e))
  | inr e ↦ ground (arith, e)
]

module _ {S : Type 0} (ops : Pages S) (s s' : S) (root f : ℕ) (w : ℕ → ℕ)
    (leaf : LoadsLeaf ops s s' root f w) where
  load_leaf : load_btree_node ops f s' ≡ (s', done w)
  unfolding load_btree_node
  load_leaf = rw (leaf.is_btree, leaf.has_words) refl

  lookup_leaf : attempt (λ x. ops.lookup_or_load x root) s ≡ (s', done (ok f))
  lookup_leaf = rw leaf.loads refl

  level_zero : (w at_level == 0) ≡ true
  level_zero = ground (arith, leaf.is_leaf)

  search_fails :
      (key : ℕ)
      → let p = btree_search_position w key in
        (ltb p (w at_count) && w (at_key p) == key) ≡ true
        → kds_btree_cursor_search ops root key s ≡ (ops.unpin f s', failed eexist)
  unfolding kds_btree_cursor_search descend arrive visit btree_cursor_cleanup
  search_fails key a =
      >>=-done (attempt (λ x. ops.lookup_or_load x root)) (arrive ops key [] (descend ops 15 key)) s
        s' (ok f) lookup_leaf
      ∙ >>=-done (load_btree_node ops f) (visit ops key [] (descend ops 15 key) f) s' s' w load_leaf
      ∙ rw a refl

  search_ends :
      (key : ℕ)
      → let p = btree_search_position w key in
        (ltb p (w at_count) && w (at_key p) == key) ≡ false
        → kds_btree_cursor_search ops root key s
          ≡ (s', done (record { frame = f; words = w; position = p } ∷ []))
  unfolding kds_btree_cursor_search descend arrive visit btree_cursor_cleanup
  search_ends key a =
      >>=-done (attempt (λ x. ops.lookup_or_load x root)) (arrive ops key [] (descend ops 15 key)) s
        s' (ok f) lookup_leaf
      ∙ >>=-done (load_btree_node ops f) (visit ops key [] (descend ops 15 key) f) s' s' w load_leaf
      ∙ rw (a, level_zero) refl

  -- A key that the root leaf has is refused, its pin is given back, and no page is written.
  duplicate_refused :
      (key value : ℕ)
      → btree_search_position w key < w at_count
      → w (at_key (btree_search_position w key)) ≡ key
      → btree_insert ops root key value s ≡ (ops.unpin f s', failed eexist)
  unfolding btree_insert
  duplicate_refused key value h k =
      >>=-failed (kds_btree_cursor_search ops root key) (insert_found ops key value) s
        (ops.unpin f s') eexist (search_fails key (ground (arith, h, k)))

  store_leaf : (w' : ℕ → ℕ) → store_btree_node ops f w' s' ≡ (ops.write_words f w' s', done true)
  unfolding store_btree_node
  store_leaf w' = rw leaf.is_btree refl

  -- A key that the root leaf does not have, where the leaf has room, is inserted at the position
  -- searched for: the page's words are written once and its pin is given back.
  insert_writes :
      (key value : ℕ)
      → w at_count < 4
      → ((i : ℕ) → i < w at_count → w (at_key i) ≢ key)
      → let w' = btree_node_insert_at w (btree_search_position w key) key value in
        btree_insert ops root key value s ≡ (ops.unpin f (ops.write_words f w' s'), done true)
  unfolding btree_insert insert_found kds_btree_cursor_insert btree_cursor_cleanup
  insert_writes key value room fresh =
      let p = btree_search_position w key in
      let w' = btree_node_insert_at w p key value in
      >>=-done (kds_btree_cursor_search ops root key) (insert_found ops key value) s s'
        (record { frame = f; words = w; position = p } ∷ [])
        (search_ends key (absent w key p fresh))
      ∙ rw (lt→ltb (w at_count) 4 room) (
          ap
            (λ x.
              (continue
                (λ r.
                  change
                    (btree_cursor_cleanup ops (record { frame = f; words = w; position = p } ∷ []))
                  >> from_result r)
                (caught x)))
            (store_leaf w'))

  -- A lookup finds the slot with the number of the first equal key.
  search_leaf :
      (key i : ℕ)
      → match_from w key (w at_count) 0 ≡ some i
      → kds_index_search ops root key s ≡ (ops.unpin f s', done (w (at_slot i)))
  unfolding kds_index_search index_descend index_arrive index_visit take_slot
  search_leaf key i m =
      >>=-done (attempt (λ x. ops.lookup_or_load x root))
        (index_arrive ops key (index_descend ops 15 key)) s s' (ok f) lookup_leaf
      ∙ >>=-done (load_btree_node ops f) (index_visit ops key (index_descend ops 15 key) f) s' s' w
          load_leaf
      ∙ rw (level_zero, m) refl
