-- ===== src/Cell/Error/Codes.antt =====
-- The error codes and the errors correspond (crates/samp-sdk/src/error.rs).
use rust_samp.Base.{ℕ, ◌≡◌, ◌⊎◌, inl, inr, refl, Bool-cases, ◌==◌, if◌then◌else◌, arith}
use rust_samp.Cell.Error.{
  AmxError, code, from_code, exit, assert, stack_error, bounds, memory_access, invalid_instruction,
  stack_low, heap_low, callback, native, divide, sleep, invalid_state, memory, format, version,
  not_found, index, debug, init, user_data, init_jit, params, domain, general, overlay, unknown,
}

error_of_code : (e : AmxError) → from_code (code e) ≡ e
unfolding code from_code
error_of_code exit = refl
error_of_code assert = refl
error_of_code stack_error = refl
error_of_code bounds = refl
error_of_code memory_access = refl
error_of_code invalid_instruction = refl
error_of_code stack_low = refl
error_of_code heap_low = refl
error_of_code callback = refl
error_of_code native = refl
error_of_code divide = refl
error_of_code sleep = refl
error_of_code invalid_state = refl
error_of_code memory = refl
error_of_code format = refl
error_of_code version = refl
error_of_code not_found = refl
error_of_code index = refl
error_of_code debug = refl
error_of_code init = refl
error_of_code user_data = refl
error_of_code init_jit = refl
error_of_code params = refl
error_of_code domain = refl
error_of_code general = refl
error_of_code overlay = refl
error_of_code unknown = refl

abbrev Coded : ℕ → AmxError → Type 0
Coded c e = (e ≡ unknown) ⊎ (code e ≡ c)

-- One arm of the match.
arm :
    (c k : ℕ) (e rest : AmxError) → code e ≡ k → Coded c rest → Coded c (if c == k then e else rest)
arm c k e rest h later = elim (Bool-cases (c == k)) [
  | inl same ↦ rw same (inr (ground arith))
  | inr other ↦ rw other later
]

code_of_error : (c : ℕ) → Coded c (from_code c)
unfolding code from_code
code_of_error c = arm c 1 exit _ refl (
    arm c 2 assert _ refl (
      arm c 3 stack_error _ refl (
        arm c 4 bounds _ refl (
          arm c 5 memory_access _ refl (
            arm c 6 invalid_instruction _ refl (
              arm c 7 stack_low _ refl (
                arm c 8 heap_low _ refl (
                  arm c 9 callback _ refl (
                    arm c 10 native _ refl (
                      arm c 11 divide _ refl (
                        arm c 12 sleep _ refl (
                          arm c 13 invalid_state _ refl (
                            arm c 16 memory _ refl (
                              arm c 17 format _ refl (
                                arm c 18 version _ refl (
                                  arm c 19 not_found _ refl (
                                    arm c 20 index _ refl (
                                      arm c 21 debug _ refl (
                                        arm c 22 init _ refl (
                                          arm c 23 user_data _ refl (
                                            arm c 24 init_jit _ refl (
                                              arm c 25 params _ refl (
                                                arm c 26 domain _ refl (
                                                  arm c 27 general _ refl (
                                                    arm c 28 overlay _ refl
                                                      (inl refl))))))))))))))))))))))))))

-- Every error is found from its code, and every code is the code of the error found for it, unless
-- that is `Unknown`.
pub from_code-code :
    (e : AmxError) (c : ℕ)
    → (from_code (code e) ≡ e) × ((from_code c ≡ unknown) ⊎ (code (from_code c) ≡ c))
from_code-code e c = (error_of_code e, code_of_error c)
