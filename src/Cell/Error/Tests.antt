-- ===== src/Cell/Error/Tests.antt =====
-- Code 5, and code 14, which the header leaves out.
use rust_samp.Base.{◌≡◌, refl}
use rust_samp.Cell.Error.{from_code, unknown}

from_code_left_out : from_code 14 ≡ unknown
unfolding from_code
from_code_left_out = refl
