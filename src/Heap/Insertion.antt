-- ===== src/Heap/Insertion.antt =====
-- What `heap_insert_tuple_ex` promises: success and its effect, the refusals, and
-- `heap_has_space` as its test.
use kdbs.Common.{
  ℕ, ◌+◌, ◌^◌, ◌≤◌, ◌<◌, ◌≡◌, ◌≢◌, ◌↔◌, true, false, List, some, arith, ok, err, einval, enospc,
  length, leb, ltb, length-take, take, Bool-cases, inl, inr,
}
use kdbs.Common.Bytes.{Bytes}
use kdbs.Page.{Frame, page_size, set_page_dirty}
use kdbs.Heap.Layout.{TupleHdr, Tid, load_meta}
use kdbs.Heap.Inv.{IsValid, tuple_at}
use kdbs.Heap.Place.{HasRoom, new_meta_lem}
use kdbs.Heap.Insert.{place-IsValid, tuple_at-place_new, tuple_at-place_old, load_next-place}
use kdbs.Heap.{
  is_heap_insert_possible, place_tuple, tuple_hdr, insert_tuple_ex, heap_insert_tuple_ex,
  free_space, heap_has_space, load_next,
}

-- The stamps of a new version, each a u64.
pub record Stamps (xmin xmax undo_ptr : ℕ) : Type 0 where
  pub xmin_fits : xmin < 2 ^ 64
  pub xmax_fits : xmax < 2 ^ 64
  pub undo_fits : undo_ptr < 2 ^ 64

-- What is left of the page when a tuple has gone into the slot `n`.
pub record Inserted (p q : Bytes) (n : ℕ) (t : TupleHdr) (bs : List ℕ) : Type 0 where
  pub valid : IsValid q
  pub count : (load_meta q).nr_slots ≡ n + 1
  pub stored : tuple_at q n ≡ some (t, bs)
  pub others : (j : ℕ) → j ≢ n → tuple_at q j ≡ tuple_at p j
  pub link : load_next q ≡ load_next p

module _ (f : Frame) (bs : List ℕ) (data_len xmin xmax undo_ptr : ℕ) (v : IsValid f.bytes)
    (src : data_len ≤ length bs) where
  abbrev hdr : TupleHdr
  hdr = tuple_hdr xmin xmax undo_ptr data_len

  abbrev inserted : Bytes
  inserted = place_tuple f.bytes (load_meta f.bytes) hdr (take data_len bs)

  abbrev RoomFor : Type 0
  RoomFor = 33 + data_len + (load_meta f.bytes).lower ≤ (load_meta f.bytes).upper

  insert-HasRoom : Stamps xmin xmax undo_ptr → RoomFor → HasRoom f.bytes hdr (take data_len bs)
  insert-HasRoom st room =
      let a = v.tail in
      let b = length-take data_len bs in
      record {
        valid = v;
        fits = (st.xmin_fits, st.xmax_fits, st.undo_fits, omega arith, omega arith, omega arith);
        len = omega arith;
        gap = room;
      }

  insert-runs :
      RoomFor
      → insert_tuple_ex f (some bs) data_len xmin xmax undo_ptr ≡ (
        set_page_dirty (record f { bytes = inserted }),
        ok (record { page_id = f.page_id; slot = (load_meta f.bytes).nr_slots }),
      )
  unfolding insert_tuple_ex is_heap_insert_possible
  insert-runs room = let a = v.tail in ground arith

  -- On a valid page whose gap between `lower` and `upper` holds a slot entry, a header and
  -- `data_len` bytes, for stamps that are u64 values and a buffer of at least `data_len` bytes,
  -- the insertion succeeds. It returns the page's id with the next slot number, keeps the
  -- invariant and the next-page link, stores header and payload under that slot, leaves every
  -- other slot's tuple as it was, and adds one slot.
  pub insert_stores :
      Stamps xmin xmax undo_ptr
      → RoomFor
      → (g : Frame) × (heap_insert_tuple_ex (some f) (some bs) data_len xmin xmax undo_ptr
          ≡ (some g, ok (record { page_id = f.page_id; slot = (load_meta f.bytes).nr_slots })))
        × Inserted f.bytes g.bytes (load_meta f.bytes).nr_slots hdr (take data_len bs)
  unfolding heap_insert_tuple_ex
  insert_stores st room =
      let h = insert-HasRoom st room in
      (
        set_page_dirty (record f { bytes = inserted }),
        rw (insert-runs room),
        record {
          valid = place-IsValid f.bytes hdr (take data_len bs) h;
          count = (new_meta_lem f.bytes hdr (take data_len bs) h).0;
          stored = tuple_at-place_new f.bytes hdr (take data_len bs) h;
          others = tuple_at-place_old f.bytes hdr (take data_len bs) h;
          link = load_next-place f.bytes hdr (take data_len bs) h;
        },
      )

  -- On a valid page without that room the insertion returns -ENOSPC (-EINVAL for a length above
  -- the page size) and leaves the frame as it was.
  pub insert_refuses :
      (load_meta f.bytes).upper < 33 + data_len + (load_meta f.bytes).lower
      → heap_insert_tuple_ex (some f) (some bs) data_len xmin xmax undo_ptr
        ≡ (some f, err (elim (ltb page_size data_len) [ true ↦ einval | false ↦ enospc ]))
  unfolding heap_insert_tuple_ex insert_tuple_ex is_heap_insert_possible
  insert_refuses full = let a = v.tail in let b = v.room in ground arith

  has_space_lem : (heap_has_space (some f) data_len ≡ true) ↔ RoomFor
  unfolding heap_has_space free_space
  has_space_lem = let a = v.tail in let b = v.room in (λ e. ground arith, λ e. ground arith)

  succeeds :
      RoomFor
      → (heap_insert_tuple_ex (some f) (some bs) data_len xmin xmax undo_ptr).1
        ≡ ok (record { page_id = f.page_id; slot = (load_meta f.bytes).nr_slots })
  unfolding heap_insert_tuple_ex
  succeeds room = rw (insert-runs room)

  -- On a valid page `heap_has_space` answers true exactly when the insertion of that length
  -- would succeed.
  pub has_space-iff-insert : (heap_has_space (some f) data_len ≡ true) ↔ (
      (tid : Tid) × ((heap_insert_tuple_ex (some f) (some bs) data_len xmin xmax undo_ptr).1
        ≡ ok tid))
  has_space-iff-insert = (forth, back)
    where
      forth :
          heap_has_space (some f) data_len ≡ true
          → (tid : Tid) × ((heap_insert_tuple_ex (some f) (some bs) data_len xmin xmax undo_ptr).1
              ≡ ok tid)
      forth e = (_, succeeds (has_space_lem.0 e))

      back :
          ((tid : Tid) × ((heap_insert_tuple_ex (some f) (some bs) data_len xmin xmax undo_ptr).1
              ≡ ok tid))
          → heap_has_space (some f) data_len ≡ true
      back (tid, e) =
          elim (Bool-cases
            (leb (33 + data_len + (load_meta f.bytes).lower) (load_meta f.bytes).upper)) [
              | inl fit ↦ has_space_lem.1 (ground arith)
              | inr full ↦ cc (e, insert_refuses (ground arith))
            ]
