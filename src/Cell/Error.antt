-- ===== src/Cell/Error.antt =====
-- crates/samp-sdk/src/error.rs: the error codes of the virtual machine. A code is the bit pattern of
-- an `i32`.
pub mod Codes
mod Tests
use rust_samp.Base.{ℕ, ◌==◌, if◌then◌else◌}

pub data AmxError : Type 0 where
  exit : AmxError
  assert : AmxError
  stack_error : AmxError
  bounds : AmxError
  memory_access : AmxError
  invalid_instruction : AmxError
  stack_low : AmxError
  heap_low : AmxError
  callback : AmxError
  native : AmxError
  divide : AmxError
  sleep : AmxError
  invalid_state : AmxError
  memory : AmxError
  format : AmxError
  version : AmxError
  not_found : AmxError
  index : AmxError
  debug : AmxError
  init : AmxError
  user_data : AmxError
  init_jit : AmxError
  params : AmxError
  domain : AmxError
  general : AmxError
  overlay : AmxError
  unknown : AmxError

-- The discriminant, as `as i32` gives it.
pub code : AmxError → ℕ
code exit = 1
code assert = 2
code stack_error = 3
code bounds = 4
code memory_access = 5
code invalid_instruction = 6
code stack_low = 7
code heap_low = 8
code callback = 9
code native = 10
code divide = 11
code sleep = 12
code invalid_state = 13
code memory = 16
code format = 17
code version = 18
code not_found = 19
code index = 20
code debug = 21
code init = 22
code user_data = 23
code init_jit = 24
code params = 25
code domain = 26
code general = 27
code overlay = 28
code unknown = 29

-- `From<i32>`.
pub from_code : ℕ → AmxError
from_code c =
    if c == 1
    then exit
    else if c == 2
    then assert
    else if c == 3
    then stack_error
    else if c == 4
    then bounds
    else if c == 5
    then memory_access
    else if c == 6
    then invalid_instruction
    else if c == 7
    then stack_low
    else if c == 8
    then heap_low
    else if c == 9
    then callback
    else if c == 10
    then native
    else if c == 11
    then divide
    else if c == 12
    then sleep
    else if c == 13
    then invalid_state
    else if c == 16
    then memory
    else if c == 17
    then format
    else if c == 18
    then version
    else if c == 19
    then not_found
    else if c == 20
    then index
    else if c == 21
    then debug
    else if c == 22
    then init
    else if c == 23
    then user_data
    else if c == 24
    then init_jit
    else if c == 25
    then params
    else if c == 26
    then domain
    else if c == 27
    then general
    else if c == 28
    then overlay
    else unknown
