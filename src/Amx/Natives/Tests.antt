-- ===== src/Amx/Natives/Tests.antt =====
-- A table of two entries of eight bytes, and a call with two parameters.
use rust_samp.Base.{ℕ, ◌+◌, ◌≡◌, refl, some, List, [], ◌∷◌, ◌++◌, map, length, arith}
use rust_samp.Cell.Error.{index}
use rust_samp.Cell.Args.{next_args, new}
use rust_samp.Cell.Args.Order.{nothing}
use rust_samp.Amx.Scope.{err}
use rust_samp.Amx.Natives.{Header, entry_offset, params_block}
use rust_samp.Amx.Natives.Table.{next_args-params_block}

abbrev header : Header
header = record { natives = 56; libraries = 72; defsize = 8 }

third_entry : entry_offset header 2 ≡ err index
unfolding entry_offset
third_entry = refl

abbrev params : List ℕ
params = 5 ∷ 6 ∷ []

next_args-params_block_example :
    next_args some (length params + 1) (new (params_block params)) ≡ map some params ++ nothing 1
next_args-params_block_example = next_args-params_block some params 1 (omega arith)
