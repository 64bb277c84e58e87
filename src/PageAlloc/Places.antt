-- ===== src/PageAlloc/Places.antt =====
-- The ring buffer of `kds_page_allocator_t`: `cursor` is the next place to take from, `reserved`
-- the next to fill.
use kdbs.Common.{ℕ, ◌+◌, ◌-◌, ◌%◌, ◌^◌, Bool, List, Option, none, some, ◌==◌, get_or, set}

-- PRE_ALLOC_RING_BUFFER_SIZE.
abbrev pub ring_size : ℕ
ring_size = 128

pub record Ring : Type 0 where
  pub places : List (Option ℕ)
  pub cursor : ℕ
  pub reserved : ℕ

unfoldable pub ring_is_full : Ring → Bool
ring_is_full r = (r.reserved + 1) % ring_size == r.cursor

-- In 64-bit arithmetic: the difference wraps where `reserved` is behind `cursor`.
unfoldable pub ring_count : Ring → ℕ
ring_count r = ((r.reserved + 2 ^ 64 - r.cursor) % 2 ^ 64 + ring_size) % 2 ^ 64 % ring_size

unfoldable pub ring_free_slots : Ring → ℕ
ring_free_slots r = ring_size - 1 - ring_count r

unfoldable pub ring_push : Ring → ℕ → Ring
ring_push r frame = record r {
  places = set r.places r.reserved (some frame);
  reserved = (r.reserved + 1) % ring_size;
}

-- The place at `cursor` is handed out and cleared.
unfoldable pub ring_take : Ring → Ring × Option ℕ
ring_take r = (
  record r { places = set r.places r.cursor none; cursor = (r.cursor + 1) % ring_size },
  get_or r.places r.cursor none,
)
