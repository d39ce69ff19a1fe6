-- ===== src/Debug/Parse/Capacity.antt =====
-- What `safe_cap` of crates/samp-sdk/src/debug/parse.rs reserves.
use rust_samp.Base.{ℕ, ◌*◌, ◌≤◌, arith}
use rust_samp.Debug.Parse.{safe_cap}

-- No table reserves room for more entries than its header counts, nor for more than the bytes left
-- can hold at the entry's least size.
pub safe_cap_bounds :
    (count entry_min remaining : ℕ)
    → (safe_cap count entry_min remaining ≤ count)
      × (safe_cap count entry_min remaining * entry_min ≤ remaining)
unfolding safe_cap
safe_cap_bounds count entry_min remaining = (omega arith, grind arith)
