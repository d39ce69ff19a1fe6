-- ===== src/Cell/Buffer/Tests.antt =====
-- A buffer of three cells, clamped, written and read.
use rust_samp.Base.{
  ℕ, ◌+◌, ◌*◌, ◌≤◌, ◌<◌, ◌≡◌, ◌⊎◌, refl, Option, some, List, [], ◌∷◌, length, arith,
}
use rust_samp.Cell.Error.{memory_access}
use rust_samp.Amx.Scope.{ok, err}
use rust_samp.Cell.Buffer.{
  UnsizedBuffer, max_buffer_cells, cells_below, get_ref, with_bound, bounded, from_raw, sized_len,
  into_sized_buffer,
}
use rust_samp.Cell.Buffer.Bounds.{into_sized_buffer_bounds}

abbrev cells : List ℕ
cells = 10 ∷ 20 ∷ 30 ∷ []

-- The argument 40 lies at the pointer 1000.
abbrev get_addr : ℕ → ℕ × Option (ℕ × List ℕ)
get_addr address = (0, some (960 + address, cells))

abbrev buffer : UnsizedBuffer
buffer = record { cells = cells; max_cells = some 2 }

made : from_raw (some get_addr) (some 48) 40 ≡ ok buffer
unfolding from_raw bounded get_ref with_bound cells_below
made = refl

-- A misaligned address is refused.
misaligned : from_raw (some get_addr) (some 48) 42 ≡ err memory_access
unfolding from_raw bounded get_ref
misaligned = refl

-- The script asks for 100 cells where two lie below the data top.
into_sized_buffer_bounds_example :
    let n = sized_len buffer 100 in
    (n ≤ 100)
    × (n ≤ max_buffer_cells)
    × (40 + 4 * n ≤ 48)
    × ((n ≡ 100) ⊎ (n ≡ max_buffer_cells) ⊎ (48 < 40 + 4 * n + 4))
    × (length (into_sized_buffer buffer 100) ≡ n)
into_sized_buffer_bounds_example =
    into_sized_buffer_bounds (some get_addr) 48 40 100 buffer made (omega arith) (omega arith)
