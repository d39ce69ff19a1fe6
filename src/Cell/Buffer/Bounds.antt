-- ===== src/Cell/Buffer/Bounds.antt =====
-- A buffer stays inside the data region, and typed cells are kept (crates/samp-sdk/src/cell/buffer.rs).
use rust_samp.Base.{
  ℕ, zero, suc, ◌+◌, ◌-◌, ◌*◌, ◌/◌, ◌≤◌, ◌<◌, ◌≡◌, refl, ap, sym, subst, ◌∙◌, ◌⊎◌, Option, some,
  List, [], ◌∷◌, length, length-take, take, min, ltb, if◌then◌else◌, ◌==◌, ◌&&◌, arith,
}
use rust_samp.Amx.Scope.{Result, ok, err}
use rust_samp.Cell.Buffer.{
  UnsizedBuffer, max_buffer_cells, cells_below, get_ref, with_bound, bounded, from_raw, clamp,
  sized_len, into_sized_buffer, get_as, set_as,
}

-- The same of the memory that the machine gives.
with_bound_bounds :
    (stp cell len : ℕ) (memory : List ℕ)
    → cell ≤ stp
    → stp - cell < 4 * length memory
    → let b = with_bound (some stp) cell memory in
      let n = sized_len b len in
      (n ≤ len)
      × (n ≤ max_buffer_cells)
      × (cell + 4 * n ≤ stp)
      × ((n ≡ len) ⊎ (n ≡ max_buffer_cells) ⊎ (stp < cell + 4 * n + 4))
      × (length (into_sized_buffer b len) ≡ n)
unfolding into_sized_buffer sized_len clamp with_bound cells_below
with_bound_bounds stp cell len memory h fit =
    let n = length-take (min (min len ((stp - cell) / 4)) max_buffer_cells) memory in
    (omega arith, omega arith, omega arith, ground arith, omega (arith, n))

bounded-with_bound :
    (stp cell : ℕ) (b : UnsizedBuffer) (r : Result (List ℕ))
    → bounded (some stp) cell r ≡ ok b
    → b ≡ with_bound (some stp) cell b.cells
unfolding bounded with_bound
bounded-with_bound stp cell b (err e) made = cc
bounded-with_bound stp cell b (ok memory) made =
    let same : with_bound (some stp) cell memory ≡ b = cc in
    sym same ∙ ap (λ (x : UnsizedBuffer). with_bound (some stp) cell x.cells) same

from_raw-with_bound :
    (get_addr : Option (ℕ → ℕ × Option (ℕ × List ℕ))) (stp cell : ℕ) (b : UnsizedBuffer)
    → from_raw get_addr (some stp) cell ≡ ok b
    → b ≡ with_bound (some stp) cell b.cells
unfolding from_raw
from_raw-with_bound get_addr stp cell b made =
    bounded-with_bound stp cell b (get_ref get_addr cell) made

pub into_sized_buffer-take :
    (memory : List ℕ) (n len : ℕ)
    → into_sized_buffer (record { cells = memory; max_cells = some n }) len
      ≡ take (min (min len n) max_buffer_cells) memory
unfolding into_sized_buffer sized_len clamp
into_sized_buffer-take memory n len = refl

-- The buffer at an address that the machine takes.
pub from_raw-found :
    (get_addr : Option (ℕ → ℕ × Option (ℕ × List ℕ))) (stp cell : ℕ) (memory : List ℕ)
    → get_ref get_addr cell ≡ ok memory
    → from_raw get_addr (some stp) cell
      ≡ ok (record { cells = memory; max_cells = some (cells_below stp cell) })
unfolding from_raw bounded with_bound
from_raw-found get_addr stp cell memory found = ap (bounded (some stp) cell) found

-- A buffer that is made from an argument at the address `cell` of a machine with data top `stp`, for any length that the script asks for, has no more cells than asked and at most 1,048,576, ends at or below the data top, and is as long as those bounds allow; it has that many cells of the memory. The address is not above the data top, and the memory from it on reaches to the data top.
pub into_sized_buffer_bounds :
    (get_addr : Option (ℕ → ℕ × Option (ℕ × List ℕ))) (stp cell len : ℕ) (b : UnsizedBuffer)
    → from_raw get_addr (some stp) cell ≡ ok b
    → cell ≤ stp
    → stp - cell < 4 * length b.cells
    → let n = sized_len b len in
      (n ≤ len)
      × (n ≤ max_buffer_cells)
      × (cell + 4 * n ≤ stp)
      × ((n ≡ len) ⊎ (n ≡ max_buffer_cells) ⊎ (stp < cell + 4 * n + 4))
      × (length (into_sized_buffer b len) ≡ n)
into_sized_buffer_bounds get_addr stp cell len b made h fit =
    let e = from_raw-with_bound get_addr stp cell b made in
    subst
      (λ (c : UnsizedBuffer).
        let n = sized_len c len in
        (n ≤ len)
        × (n ≤ max_buffer_cells)
        × (cell + 4 * n ≤ stp)
        × ((n ≡ len) ⊎ (n ≡ max_buffer_cells) ⊎ (stp < cell + 4 * n + 4))
        × (length (into_sized_buffer c len) ≡ n))
      (sym e) (with_bound_bounds stp cell len b.cells h fit)

-- Writing a value and reading it back at any index: the value comes back where it was written,
-- every other index reads as before, an index past the end is refused and changes nothing, and the
-- length stays.
pub get_as-set_as :
    {T : Type 0} (from_cell : ℕ → T) (into_cell : T → ℕ) (buffer : List ℕ) (i j : ℕ) (v : T)
    → from_cell (into_cell v) ≡ v
    → let (b, done) = set_as into_cell buffer i v in
      (done ≡ ltb i (length buffer))
      × (length b ≡ length buffer)
      × (get_as from_cell b j
          ≡ (if (i == j) && ltb i (length buffer) then some v else get_as from_cell buffer j))
unfolding get_as set_as
get_as-set_as from_cell into_cell [] i j v h = (ground arith, refl, ground arith)
get_as-set_as from_cell into_cell (c ∷ buffer) zero zero v h = (ground arith, refl, ground arith)
get_as-set_as from_cell into_cell (c ∷ buffer) zero (suc j) v h = (ground arith, refl, ground arith)
get_as-set_as from_cell into_cell (c ∷ buffer) (suc i) zero v h =
    let (d, l, g) = get_as-set_as from_cell into_cell buffer i zero v h in
    (d ∙ ground arith, ap suc l, ground arith)
get_as-set_as from_cell into_cell (c ∷ buffer) (suc i) (suc j) v h =
    let (d, l, g) = get_as-set_as from_cell into_cell buffer i j v h in
    (d ∙ ground arith, ap suc l, g ∙ ground arith)
