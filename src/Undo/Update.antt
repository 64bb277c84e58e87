-- ===== src/Undo/Update.antt =====
-- What `kds_heap_update_tuple` promises: the old version can be read back through the new
-- version's undo pointer, and where the update cannot be completed the row is gone.
use mathlib.Core.List.{append-nil}
use kdbs.Common.{
  ℕ, ◌+◌, ◌-◌, ◌^◌, ◌≤◌, ◌<◌, ◌≡◌, ◌≢◌, refl, sym, ap, ◌∙◌, inl, inr, true, false, List, [], ◌∷◌,
  ◌++◌, Option, none, some, arith, ok, Result, length, take, replicate, take_all, length-append,
  length-replicate, ltb, Bool-cases,
}
use kdbs.Common.Bytes.{Bytes, load, length-load}
use kdbs.Page.{Frame}
use kdbs.Page.Laws.{with_frame_inv}
use kdbs.Heap.Layout.{TupleHdr, Tid, load_meta}
use kdbs.Heap.Inv.{IsValid, tuple_at, live_slot_inv}
use kdbs.Heap.Changes.{Replaced, tuple_at_inv, overwrite_replaces, found_fits}
use kdbs.Heap.Insertion.{Stamps, insert_stores}
use kdbs.Heap.Retire.{retire_frees}
use kdbs.Heap.Reading.{read_returns}
use kdbs.Heap.{
  tuple_hdr, payload, no_data, heap_insert_tuple_ex, insert_tuple_ex, heap_overwrite_tuple,
  overwrite_tuple, heap_retire_slot, retire_slot, heap_slot_capacity, heap_read_tuple, read_tuple,
}
use kdbs.Undo.{
  UndoEntry, op_update, max_old_data, entry_size, encode_entry, heap_tid_pack, write_entry,
  undo_read_entry, read_old, write_new, update_tuple, heap_update_tuple,
}
use kdbs.Undo.Entry.{tid_unpack-pack, EntryFits, length-encode_entry, decode-encode_entry}

module _ (target : Frame) (i : ℕ) (t : TupleHdr) (bs : List ℕ)
    (has : tuple_at target.bytes i ≡ some (t, bs)) where
  length-found : length bs ≡ t.data_len
  length-found =
      let e = (tuple_at_inv target.bytes i has).2 in
      ap length (sym e) ∙ length-load target.bytes _ t.data_len

  header_read : read_tuple target.bytes i none true ≡ ok (t, [])
  unfolding read_tuple
  header_read = let e = tuple_at_inv target.bytes i has in ground (arith, e.0, e.1)

  payload_read : read_tuple target.bytes i (some t.data_len) true ≡ ok (t, bs)
  unfolding heap_read_tuple read_tuple
  payload_read = let e = tuple_at_inv target.bytes i has in ground (arith, e.0, e.1, e.2)

  -- The old version is read as it stands.
  read_old_lem :
      t.data_len ≤ max_old_data
      → (d : Option (List ℕ)) × (read_old true target i ≡ ok (t, d))
        × (no_data d t.data_len ≡ false)
        × (payload d t.data_len ≡ bs)
  unfolding read_old
  read_old_lem small = elim (Bool-cases (ltb 0 t.data_len)) [
    | inl some_data ↦ (
      some bs,
      ground (arith, header_read, payload_read),
      refl,
      take_all t.data_len bs (omega (arith, length-found)),
    )
    | inr no_bytes ↦ (
      none,
      ground (arith, header_read),
      no_bytes,
      nil_of_length bs (ground (arith, length-found)),
    )
  ]
    where
      nil_of_length : (bs : List ℕ) → length bs ≡ 0 → [] ≡ bs
      nil_of_length [] h = refl
      nil_of_length (b ∷ r) h = absurd (omega arith)

-- The entry that an update writes for the version `(t, bs)` of the tuple at `tid`.
abbrev pub old_entry : ℕ → Tid → TupleHdr → List ℕ → ℕ → UndoEntry
old_entry owner_oid tid t bs xid = record {
  owner_oid = owner_oid;
  old_tid = tid;
  prev_undo_ptr = t.undo_ptr;
  xmin = t.xmin;
  xmax = xid;
  operation = op_update;
  old_data_len = t.data_len;
  old_data = bs ++ replicate (max_old_data - t.data_len) 0;
}

-- The undo page has the entry in its next slot, and keeps what it had.
pub record Saved (undo undo' : Frame) (e : UndoEntry) : Type 0 where
  pub valid : IsValid undo'.bytes
  pub readable : undo_read_entry (some undo') (load_meta undo.bytes).nr_slots ≡ ok e
  pub others :
      (j : ℕ) → j ≢ (load_meta undo.bytes).nr_slots → tuple_at undo'.bytes j ≡ tuple_at undo.bytes j

module _ (undo : Frame) (e : UndoEntry) (xid : ℕ) (vu : IsValid undo.bytes) (fits : EntryFits e)
    (xid_fits : xid < 2 ^ 64)
    (room : 340 + (load_meta undo.bytes).lower ≤ (load_meta undo.bytes).upper) where
  abbrev undo_tid : Tid
  undo_tid = record { page_id = undo.page_id; slot = (load_meta undo.bytes).nr_slots }

  insert_entry :
      (undo' : Frame) × (insert_tuple_ex undo (some (encode_entry e)) entry_size xid 0 0
        ≡ (undo', ok undo_tid))
      × Saved undo undo' e
  unfolding heap_insert_tuple_ex undo_read_entry load
  insert_entry =
      let len = length-encode_entry e fits.bytes in
      let st : Stamps xid 0 0 = omega arith in
      let (g, runs, ins) =
        insert_stores undo (encode_entry e) entry_size xid 0 0 vu (omega arith) st room in
      let whole : take entry_size (encode_entry e) ≡ encode_entry e =
        take_all entry_size (encode_entry e) (omega arith) in
      let stored = rw whole at ins.stored in
      let back =
        read_returns g (load_meta undo.bytes).nr_slots (tuple_hdr xid 0 0 entry_size)
          (encode_entry e) entry_size stored (omega arith)
        ∙ ap (λ l. ok (tuple_hdr xid 0 0 entry_size, l)) (append-nil (encode_entry e)) in
      (
        g,
        with_frame_inv (λ f. insert_tuple_ex f (some (encode_entry e)) entry_size xid 0 0) undo g
            (ok undo_tid) runs,
        record {
          valid = ins.valid;
          readable = ground (arith, back, decode-encode_entry e fits);
          others = ins.others;
        },
      )

module _ (target undo : Frame) (i : ℕ) (t : TupleHdr) (bs new : List ℕ)
    (n cap xid owner_oid : ℕ) where
  abbrev pub undo_address : Tid
  undo_address = record { page_id = undo.page_id; slot = (load_meta undo.bytes).nr_slots }

  abbrev pub entry : UndoEntry
  entry = old_entry owner_oid (record { page_id = target.page_id; slot = i }) t bs xid

  -- What an update finds: two valid pages, a tuple whose payload an undo entry can hold, its
  -- slot's capacity, room for the entry on the undo page, and arguments within their types.
  pub record Ready : Type 0 where
    pub target_valid : IsValid target.bytes
    pub undo_valid : IsValid undo.bytes
    pub has : tuple_at target.bytes i ≡ some (t, bs)
    pub small : t.data_len ≤ max_old_data
    pub capacity : heap_slot_capacity (some target) i ≡ ok cap
    pub undo_room : 340 + (load_meta undo.bytes).lower ≤ (load_meta undo.bytes).upper
    pub source : n ≤ length new
    pub xid_fits : xid < 2 ^ 64
    pub owner_fits : owner_oid < 2 ^ 64
    pub target_id_fits : target.page_id < 2 ^ 64
    pub undo_id_fits : undo.page_id < 2 ^ 48

  -- What an update leaves: the frames, the undo page with the old version in its next slot.
  abbrev pub Updates : Result Tid → (Frame → Type 0) → Type 0
  Updates r P =
      (target' : Frame) × (undo' : Frame) × (heap_update_tuple true (some target) i (some new) n xid
          owner_oid (some undo)
        ≡ (some target', some undo', r))
      × Saved undo undo' entry
      × P target'

  module _ (r : Ready) where
    open r use {
      target_valid, undo_valid, has, small, capacity, undo_room, source, xid_fits, owner_fits,
      target_id_fits, undo_id_fits,
    }

    slots_fit : (p : Bytes) → IsValid p → (load_meta p).nr_slots < 2 ^ 16
    slots_fit p v = let a = v.directory in let b = v.room in let c = v.tail in omega arith

    entry_fits : EntryFits entry
    entry_fits =
        let f = found_fits target target_valid i t bs has in
        let l = live_slot_inv target.bytes i (tuple_at_inv target.bytes i has).0 in
        let k = slots_fit target.bytes target_valid in
        let m = length-found target i t bs has in
        let c = length-replicate {A = ℕ} (max_old_data - t.data_len) 0 in
        let d = length-append bs (replicate (max_old_data - t.data_len) 0) in
        let j = l.0 in
        record {
          owner = owner_fits;
          page = target_id_fits;
          slot = omega arith;
          prev = f.2;
          xmin = f.0;
          xmax = xid_fits;
          operation = omega arith;
          len = f.3;
          bytes = omega arith;
        }

    pointer_fits : heap_tid_pack undo_address < 2 ^ 64
    pointer_fits = (tid_unpack-pack undo_address undo_id_fits (slots_fit undo.bytes undo_valid)).1

    -- Up to the writing of the new version every update runs the same way.
    pub update_until :
        (target' : Frame) (res : Result Tid)
        → write_new target i (some new) n xid (heap_tid_pack undo_address) ≡ (target', res)
        → (P : Frame → Type 0) → P target'
        → Updates res P
    unfolding heap_update_tuple update_tuple write_entry
    update_until target' res e P h =
        let (d, old, given, same) = read_old_lem target i t bs has small in
        let (undo', runs, saved) =
          insert_entry undo entry xid undo_valid entry_fits xid_fits undo_room in
        (target', undo', ground (arith, old, given, same, runs, e), saved, h)

    pub new-Stamps : Stamps xid 0 (heap_tid_pack undo_address)
    new-Stamps = record { xmin_fits = xid_fits; xmax_fits = omega arith; undo_fits = pointer_fits }

    abbrev pub new_hdr : TupleHdr
    new_hdr = tuple_hdr xid 0 (heap_tid_pack undo_address) n

    write_in_place_lem :
        n ≤ cap
        → (g : Frame) × (write_new target i (some new) n xid (heap_tid_pack undo_address)
            ≡ (g, ok (record { page_id = target.page_id; slot = i })))
          × Replaced target.bytes g.bytes i (some (new_hdr, take n new))
    unfolding write_new heap_overwrite_tuple heap_slot_capacity
    write_in_place_lem fit =
        let (g, runs, rep) =
          overwrite_replaces target target_valid i t bs has new n xid 0 (heap_tid_pack undo_address)
            new-Stamps source cap capacity fit in
        let body =
          with_frame_inv (λ f. overwrite_tuple f i (some new) n xid 0 (heap_tid_pack undo_address))
            target g (ok tt) runs in
        (g, ground (arith, body), rep)

    pub retire_lem :
        (g : Frame) × (retire_slot target i ≡ (g, ok tt)) × Replaced target.bytes g.bytes i none
    unfolding heap_retire_slot
    retire_lem =
        let l = live_slot_inv target.bytes i (tuple_at_inv target.bytes i has).0 in
        let (g, runs, rep) = retire_frees target i target_valid l.0 in
        (g, with_frame_inv (λ f. retire_slot f i) target g (ok tt) runs, rep)

    -- The pages are valid, the slot has the row, its old payload has at most 256 bytes, memory
    -- for the entry can be had, the undo page has 340 free bytes, the new payload has at least as
    -- many bytes as its length says, the transaction, the owner and the page id are u64, and the
    -- id of the undo page lies below 2 ^ 48. Then an update of the row whose new payload fits the
    -- slot succeeds and keeps the address: the slot has the new version under a header with the
    -- packed address of the undo entry, the target page's other rows, its meta and its link are
    -- kept, and the undo page gives the old version back and keeps its other rows.
    pub update_in_place :
        n ≤ cap
        → Updates
            (ok (record { page_id = target.page_id; slot = i }))
            (λ g. Replaced target.bytes g.bytes i (some (new_hdr, take n new)))
    update_in_place fit =
        let (g, runs, rep) = write_in_place_lem fit in
        update_until g _ runs (λ g. Replaced target.bytes g.bytes i (some (new_hdr, take n new)))
          rep
