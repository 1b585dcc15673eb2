-- ===== src/Machine/Slices.antt =====
-- Slices that are made of pointers which are not null (`from_raw_parts` of html5ever/lib.rs).
use zenpanda.Prelude.{ℕ, ◌≡◌, ◌≢◌, List, ==_ne}
use zenpanda.Html5ever.{Ptr, null}
use zenpanda.Memory.{read_slice, write_slice}
use zenpanda.Machine.{World, Machine, returned, from_raw_parts, write_parts}

module _ {w : World} (m : Machine w) (p : Ptr) where
  pub from_raw_parts_lem :
      (n : ℕ) → p ≢ null → from_raw_parts p n m ≡ returned (read_slice m.bytes p n) m
  unfolding from_raw_parts
  from_raw_parts_lem n ne = rw (==_ne p null ne)

  pub write_parts_lem :
      (vs : List ℕ)
      → p ≢ null
      → write_parts p vs m ≡ returned tt (record m { bytes = write_slice m.bytes p vs })
  unfolding write_parts
  write_parts_lem vs ne = rw (==_ne p null ne)
