-- ===== src/Btree/Tree.antt =====
-- Descending, inserting and splitting over pages: the cursor functions of kernel/kds/btree.c and
-- the lookup of kernel/kds/relation.c. Every page is named by its id and every pinned page by a
-- frame number.
use kdbs.Common.{
  ℕ, zero, suc, Bool, true, ◌&&◌, List, [], ◌∷◌, Option, none, some, ltb, ◌==◌, if◌then◌else◌,
  Result, ok, err, enomem, enoent, eexist, e2big,
}
use kdbs.Btree.Node.{
  put, at_level, at_count, at_key, at_slot, at_next, at_prev, max_keys, btree_search_position,
  btree_node_insert_at, match_from,
}
use kdbs.Btree.Rebalance.{split_words, Family, merge_words}
use kdbs.Btree.Program.{
  Program, ◌>>=◌, ◌>>◌, give, fail, halt, change, ask, attempt, catching, from_result,
}

-- What the tree asks of the buffer pool and the superblock. `init_hdr` sets the type and the INIT
-- flag of a new page's header and commits it.
pub record Pages (S : Type 0) : Type 0 where
  pub lookup_or_load : S → ℕ → S × Result ℕ
  pub alloc_new : S → ℕ → S × Result ℕ
  pub assign_page_id : S → S × ℕ
  pub unpin : ℕ → S → S
  pub set_dirty : ℕ → S → S
  pub init_hdr : ℕ → ℕ → S → S
  pub page_id : ℕ → S → ℕ
  pub page_type : ℕ → S → ℕ
  pub is_btree_page : ℕ → S → Bool
  pub read_words : ℕ → S → ℕ → ℕ
  pub write_words : ℕ → (ℕ → ℕ) → S → S

-- One level of a cursor: the node, its frame and the position searched for.
pub record Step : Type 0 where
  pub frame : ℕ
  pub words : ℕ → ℕ
  pub position : ℕ

-- A cursor is the levels from the deepest up.
abbrev pub Cursor : Type 0
Cursor = List Step

-- BTREE_MAX_DEPTH.
abbrev pub max_depth : ℕ
max_depth = 16

module _ {S : Type 0} (ops : Pages S) where
  -- BUG_ON where the page is no B-tree page.
  unfoldable pub load_btree_node : ℕ → Program S (ℕ → ℕ)
  load_btree_node frame = do
    is ← ask (ops.is_btree_page frame)
    if is then ask (ops.read_words frame) else halt

  unfoldable pub store_btree_node : ℕ → (ℕ → ℕ) → Program S Bool
  store_btree_node frame words = do
    is ← ask (ops.is_btree_page frame)
    if is then change (ops.write_words frame words) else halt

  -- The root's pin is given back first.
  unfoldable pub btree_cursor_cleanup : Cursor → S → S
  btree_cursor_cleanup [] s = s
  btree_cursor_cleanup (step ∷ above) s = ops.unpin step.frame (btree_cursor_cleanup above s)

  -- A round of the loop of `kds_btree_cursor_search` on a loaded node; `deeper` is the next round.
  unfoldable pub visit :
      ℕ → Cursor → (Cursor → ℕ → Program S Cursor) → ℕ → (ℕ → ℕ) → Program S Cursor
  visit key cursor deeper frame w =
      let pos = btree_search_position w key in
      let path = record { frame = frame; words = w; position = pos } ∷ cursor in
      if ltb pos (w at_count) && w (at_key pos) == key
      then change (btree_cursor_cleanup path) >> fail eexist
      else if w at_level == 0
      then give path
      else deeper path (w (at_slot pos))

  -- The same from the answer of the pool on.
  unfoldable pub arrive : ℕ → Cursor → (Cursor → ℕ → Program S Cursor) → Result ℕ → Program S Cursor
  arrive key cursor deeper (err e) = change (btree_cursor_cleanup cursor) >> fail e
  arrive key cursor deeper (ok frame) = load_btree_node frame >>= visit key cursor deeper frame

  -- The loop of `kds_btree_cursor_search` with `left` levels to go.
  unfoldable pub descend : ℕ → ℕ → Cursor → ℕ → Program S Cursor
  descend zero key cursor id = change (btree_cursor_cleanup cursor) >> fail e2big
  descend (suc left) key cursor id =
      attempt (λ s. ops.lookup_or_load s id) >>= arrive key cursor (descend left key)

  unfoldable pub kds_btree_cursor_search : ℕ → ℕ → Program S Cursor
  kds_btree_cursor_search root key = descend max_depth key [] root

  -- `btree_alloc_new_page`; the id 0 stands for a superblock that is not loaded.
  unfoldable pub btree_alloc_new_page : ℕ → Program S ℕ
  btree_alloc_new_page type = do
    id ← attempt ops.assign_page_id
    let alloc = (do
      r ← attempt (λ s. ops.alloc_new s id)
      frame ← from_result r
      change (ops.init_hdr frame type)
      give frame) in
        if id == 0 then fail enomem else alloc

  -- The page behind a new sibling points back to it, if it can be loaded.
  unfoldable pub relink : ℕ → ℕ → Program S Bool
  relink next new_id =
      let patch = (do
        r ← attempt (λ s. ops.lookup_or_load s next)
        elim r [
          | err e ↦ give true
          | ok f ↦ (do
            w ← load_btree_node f
            store_btree_node f (put w at_prev new_id)
            change (ops.unpin f))
        ]) in
      if next == 0 then give true else patch

  -- `btree_split_node` on a node's words; it ends with the promoted key and the new page's id.
  unfoldable pub btree_split_node : ℕ → (ℕ → ℕ) → Program S (ℕ × ℕ)
  btree_split_node frame w = do
    type ← ask (ops.page_type frame)
    new ← btree_alloc_new_page type
    id ← ask (ops.page_id frame)
    new_id ← ask (ops.page_id new)
    let r = split_words w id new_id in
        (do
          store_btree_node frame r.left
          store_btree_node new r.right
          relink (r.right at_next) new_id
          change (ops.set_dirty frame)
          change (ops.set_dirty new)
          change (ops.unpin new)
          give (r.promoted_key, new_id))

  -- The end of both redistributions; the arguments are the frames of the parent and of the left
  -- and the right node.
  unfoldable pub store_family : ℕ → ℕ → ℕ → Family → Program S Bool
  store_family parent left right f = do
    store_btree_node left f.left
    store_btree_node right f.right
    store_btree_node parent f.parent
    change (ops.set_dirty left)
    change (ops.set_dirty right)
    change (ops.set_dirty parent)

  -- `btree_merge_nodes`; for leaves the page behind the right node is made to point back to the
  -- left one.
  unfoldable pub btree_merge_nodes : ℕ → ℕ → Family → ℕ → Program S Bool
  btree_merge_nodes parent left f sep_pos = do
    left_id ← ask (ops.page_id left)
    if f.left at_level == 0 then relink (f.right at_next) left_id else give true
    store_btree_node left (merge_words f sep_pos).left
    store_btree_node parent (merge_words f sep_pos).parent
    change (ops.set_dirty left)
    change (ops.set_dirty parent)

  -- `btree_propagate_split` over the levels above the node that was split, the lowest first. Where
  -- every level is full the function gets a page for a new root and then panics; what it does to
  -- that page in memory before the panic is not modelled.
  unfoldable pub btree_propagate_split : List Step → ℕ → ℕ → Program S Bool
  btree_propagate_split [] key right = btree_alloc_new_page 1 >> halt
  btree_propagate_split (step ∷ above) key right =
      let w = btree_node_insert_at step.words step.position key right in
      let split = (do
        r ← catching (btree_split_node step.frame w)
        elim r [ err e ↦ fail enomem | ok next ↦ btree_propagate_split above next.0 next.1 ]) in
      if ltb (step.words at_count) max_keys then store_btree_node step.frame w else split

  -- `kds_btree_cursor_insert`; the cursor is its leaf and the levels above.
  unfoldable pub kds_btree_cursor_insert : Step → List Step → ℕ → ℕ → Program S Bool
  kds_btree_cursor_insert leaf above key value =
      let w = btree_node_insert_at leaf.words leaf.position key value in
      let insert = if ltb (leaf.words at_count) max_keys then store_btree_node leaf.frame w else (do
        split ← btree_split_node leaf.frame w
        btree_propagate_split above split.0 split.1) in
      do r ← catching insert; change (btree_cursor_cleanup (leaf ∷ above)); from_result r

  -- A search that ends well has a leaf.
  unfoldable pub insert_found : ℕ → ℕ → Cursor → Program S Bool
  insert_found key value [] = halt
  insert_found key value (leaf ∷ above) = kds_btree_cursor_insert leaf above key value

  unfoldable pub btree_insert : ℕ → ℕ → ℕ → Program S Bool
  btree_insert root key value = kds_btree_cursor_search root key >>= insert_found key value

  -- The slot that a leaf gives for a key.
  unfoldable pub take_slot : ℕ → (ℕ → ℕ) → Option ℕ → Program S ℕ
  take_slot frame w none = change (ops.unpin frame) >> fail enoent
  take_slot frame w (some i) = change (ops.unpin frame) >> give (w (at_slot i))

  -- A round of the loop of `kds_index_search`; `deeper` is the next round.
  unfoldable pub index_visit : ℕ → (ℕ → Program S ℕ) → ℕ → (ℕ → ℕ) → Program S ℕ
  index_visit key deeper frame w =
      if w at_level == 0
      then take_slot frame w (match_from w key (w at_count) 0)
      else change (ops.unpin frame) >> deeper (w (at_slot (btree_search_position w key)))

  unfoldable pub index_arrive : ℕ → (ℕ → Program S ℕ) → Result ℕ → Program S ℕ
  index_arrive key deeper (err e) = fail e
  index_arrive key deeper (ok frame) = load_btree_node frame >>= index_visit key deeper frame

  -- The loop of `kds_index_search` with `left` levels to go.
  unfoldable pub index_descend : ℕ → ℕ → ℕ → Program S ℕ
  index_descend zero key id = fail e2big
  index_descend (suc left) key id =
      attempt (λ s. ops.lookup_or_load s id) >>= index_arrive key (index_descend left key)

  unfoldable pub kds_index_search : ℕ → ℕ → Program S ℕ
  kds_index_search root key = index_descend max_depth key root
