-- ===== src/Undo/Relocate.antt =====
-- An update whose new payload is above the old slot's capacity: the old slot is retired, and the
-- new version goes to a new slot of the same page, if there is room.
use kdbs.Common.{
  ℕ, ◌+◌, ◌≤◌, ◌<◌, ◌≡◌, ◌≢◌, ◌∙◌, List, none, some, arith, ok, err, Result, enospc, einval, ltb,
  true, false, take,
}
use kdbs.Common.Bytes.{Bytes}
use kdbs.Page.{Frame, page_size}
use kdbs.Page.Laws.{with_frame_inv}
use kdbs.Heap.Layout.{TupleHdr, Tid, load_meta}
use kdbs.Heap.Inv.{IsValid, tuple_at, live_slot_inv}
use kdbs.Heap.Changes.{Replaced, tuple_at_inv}
use kdbs.Heap.Insertion.{Inserted, insert_stores, insert_refuses}
use kdbs.Heap.{heap_insert_tuple_ex, insert_tuple_ex, retire_slot, heap_slot_capacity}
use kdbs.Undo.{heap_tid_pack, write_new}
use kdbs.Undo.Update.{Ready, Updates, update_until, retire_lem, new-Stamps, new_hdr, undo_address}

-- The row has moved: slot `i` is dead, the new slot has the new version, the others stay.
pub record Moved (p q : Bytes) (i : ℕ) (t : TupleHdr) (bs : List ℕ) : Type 0 where
  pub valid : IsValid q
  pub gone : tuple_at q i ≡ none
  pub new : tuple_at q (load_meta p).nr_slots ≡ some (t, bs)
  pub others : (j : ℕ) → j ≢ i → j ≢ (load_meta p).nr_slots → tuple_at q j ≡ tuple_at p j

module _ (target undo : Frame) (i : ℕ) (t : TupleHdr) (bs new : List ℕ) (n cap xid owner_oid : ℕ)
    (r : Ready target undo i t bs new n cap xid owner_oid) (over : cap < n) where
  abbrev hdr : TupleHdr
  hdr = new_hdr target undo i t bs new n cap xid owner_oid r

  abbrev address : ℕ
  address = heap_tid_pack (undo_address target undo i t bs new n cap xid owner_oid)

  -- Once the old slot is retired, the outcome is that of the insertion.
  relocate_lem :
      (g h : Frame) (res : Result Tid)
      → retire_slot target i ≡ (g, ok tt)
      → insert_tuple_ex g (some new) n xid 0 address ≡ (h, res)
      → write_new target i (some new) n xid address ≡ (h, res)
  unfolding write_new heap_slot_capacity
  relocate_lem g h res e k = let c = r.capacity in ground (arith, e, k)

  same_page :
      (g : Frame) (res : Result (Unit {0}))
      → retire_slot target i ≡ (g, res)
      → g.page_id ≡ target.page_id
  unfolding retire_slot
  same_page g res e = ground arith

  moved :
      (g h : Frame)
      → Replaced target.bytes g.bytes i none
      → Inserted g.bytes h.bytes (load_meta g.bytes).nr_slots hdr (take n new)
      → Moved target.bytes h.bytes i hdr (take n new)
  moved g h rep ins =
      let m = rep.meta in
      let l = live_slot_inv target.bytes i (tuple_at_inv target.bytes i r.has).0 in
      let j = l.0 in
      record {
        valid = ins.valid;
        gone = ins.others i (rw m (omega arith)) ∙ rep.new;
        new = rw m at ins.stored;
        others = λ j a b. ins.others j (rw m b) ∙ rep.others j a;
      }

  -- The pages are valid, the slot has the row, its old payload has at most 256 bytes, memory for
  -- the entry can be had, the undo page has 340 free bytes, the new payload has at least as many
  -- bytes as its length says, the transaction, the owner and the page id are u64, and the id of
  -- the undo page lies below 2 ^ 48. Then an update of the row whose new payload does not fit the
  -- slot, but has room on the target page, succeeds with a new address: the old slot is dead, the
  -- new slot has the new version under a header with the packed address of the undo entry, the
  -- target page's other rows are kept, and the undo page gives the old version back and keeps its
  -- other rows.
  pub update_moves :
      33 + n + (load_meta target.bytes).lower ≤ (load_meta target.bytes).upper
      → Updates target undo i t bs new n cap xid owner_oid
          (ok (record { page_id = target.page_id; slot = (load_meta target.bytes).nr_slots }))
          (λ g. Moved target.bytes g.bytes i hdr (take n new))
  unfolding heap_insert_tuple_ex
  update_moves room =
      let (g, runs, rep) = retire_lem target undo i t bs new n cap xid owner_oid r in
      let m = rep.meta in
      let id : g.page_id ≡ target.page_id = same_page g _ runs in
      let st = new-Stamps target undo i t bs new n cap xid owner_oid r in
      let (h, stores, ins) =
        insert_stores g new n xid 0 address rep.valid r.source st (rw m room) in
      let body =
        with_frame_inv (λ f. insert_tuple_ex f (some new) n xid 0 address) g h
          (ok (record { page_id = target.page_id; slot = (load_meta target.bytes).nr_slots }))
          (ground (arith, stores, m, id)) in
      update_until target undo i t bs new n cap xid owner_oid r h _ (relocate_lem g h _ runs body)
        (λ h. Moved target.bytes h.bytes i hdr (take n new)) (moved g h rep ins)

  -- If the target page has no room for the new version, the update returns -ENOSPC (-EINVAL for
  -- a payload above the page size), although the old slot has been retired: afterwards the slot
  -- stands for no tuple, no slot has been added, and the old version is only on the undo page.
  update_loses :
      (load_meta target.bytes).upper < 33 + n + (load_meta target.bytes).lower
      → Updates target undo i t bs new n cap xid owner_oid
          (err (elim (ltb page_size n) [ true ↦ einval | false ↦ enospc ]))
          (λ g. Replaced target.bytes g.bytes i none)
  unfolding heap_insert_tuple_ex
  update_loses full =
      let (g, runs, rep) = retire_lem target undo i t bs new n cap xid owner_oid r in
      let refused =
        insert_refuses g new n xid 0 address rep.valid r.source (let e = rep.meta in rw e full) in
      let body = with_frame_inv (λ f. insert_tuple_ex f (some new) n xid 0 address) g g _ refused in
      update_until target undo i t bs new n cap xid owner_oid r g _ (relocate_lem g g _ runs body)
        (λ h. Replaced target.bytes h.bytes i none) rep
