-- ===== src/Cell/Args/Order.antt =====
-- `next_arg` gives the arguments in order and then nothing (crates/samp-sdk/src/args.rs).
use rust_samp.Base.{
  subst, append-nil, ℕ, zero, suc, ◌+◌, ◌*◌, ◌≤◌, ◌<◌, ◌≡◌, refl, ap, sym, ◌∙◌, Option, none, some,
  List, [], ◌∷◌, ◌++◌, length, take, length-append, get_elem?, le→leb, gt→leb, map, append_assoc,
  arith,
}
use rust_samp.Cell.Args.{new, Args, count, count_bytes, get, next_arg, next_args, after_args, reset}

abbrev pub nothing : {T : Type 0} → ℕ → List (Option T)
nothing zero = []
nothing (suc n) = none ∷ nothing n

get_elem?-append :
    (before after : List ℕ) (x : ℕ) → get_elem? (before ++ x ∷ after) (length before) ≡ some x
get_elem?-append [] after x = refl
get_elem?-append (y ∷ before) after x = get_elem?-append before after x

count_bytes-cells : (n : ℕ) → n < 0x2000_0000 → count_bytes (4 * n) ≡ n
unfolding count_bytes
count_bytes-cells n h = ground arith

module _ {T : Type 0} (from_raw : ℕ → Option T) where
  -- The state after some of the arguments were read.
  abbrev reading : ℕ → List ℕ → ℕ → Args
  reading total memory offset = record { params = 4 * total ∷ memory; offset = offset }

  get_past :
      (total offset i : ℕ) (memory : List ℕ)
      → total < 0x2000_0000
      → total ≤ i
      → get from_raw (reading total memory offset) i ≡ none
  unfolding get count
  get_past total offset i memory h past = rw (count_bytes-cells total h, le→leb total i past) refl

  get_next :
      (total offset : ℕ) (before after : List ℕ) (cell : ℕ)
      → total < 0x2000_0000
      → length before < total
      → get from_raw (reading total (before ++ cell ∷ after) offset) (length before) ≡ from_raw cell
  unfolding get count
  get_next total offset before after cell h inside =
      let e : length before + 1 ≡ suc (length before) = omega arith in
      rw
        (
          count_bytes-cells total h,
          gt→leb total (length before) inside,
          e,
          get_elem?-append before after cell,
        )
        refl

  next_args_past :
      (total offset n : ℕ) (memory : List ℕ)
      → total < 0x2000_0000
      → total ≤ offset
      → next_args from_raw n (reading total memory offset) ≡ nothing n
  unfolding next_args next_arg
  next_args_past total offset zero memory h past = refl
  next_args_past total offset (suc n) memory h past =
      rw (get_past total offset offset memory h past)
        (ap (◌∷◌ none) (next_args_past total (offset + 1) n memory h (omega arith)))

  next_args_from :
      (total n : ℕ) (before cells after : List ℕ)
      → total < 0x2000_0000
      → total ≡ length before + length cells
      → next_args from_raw
          (length cells + n)
          (reading total (before ++ (cells ++ after)) (length before))
        ≡ map from_raw cells ++ nothing n
  unfolding next_args next_arg
  next_args_from total n before [] after h e =
      let z : 0 + n ≡ n = omega arith in
      rw z (next_args_past total (length before) n (before ++ after) h (omega arith))
  next_args_from total n before (c ∷ cells) after h e =
      let z : suc (length cells) + n ≡ suc (length cells + n) = omega arith in
      let next : length before + 1 ≡ length (before ++ c ∷ []) =
        sym (length-append before (c ∷ [])) in
      let memory : before ++ c ∷ (cells ++ after) ≡ (before ++ c ∷ []) ++ (cells ++ after) =
        sym (append_assoc before (c ∷ []) (cells ++ after)) in
      rw (z, get_next total (length before) before (cells ++ after) c h (omega arith))
        (ap (◌∷◌ (from_raw c)) (
          rw (next, memory)
            (next_args_from total n (before ++ c ∷ []) cells after h (omega (arith, next)))))

-- From the start or after a reset, whatever was read before, the calls of `next_arg` give each
-- argument's conversion in order, once, and after the last argument nothing, however often called.
-- The header counts the cells in bytes; there are fewer than 2 ^ 29, so that it is positive.
pub next_args-reset :
    {T : Type 0} (from_raw : ℕ → Option T) (cells after : List ℕ) (offset n : ℕ)
    → length cells < 0x2000_0000
    → next_args from_raw
        (length cells + n)
        (reset (record { params = 4 * length cells ∷ (cells ++ after); offset = offset }))
      ≡ map from_raw cells ++ nothing n
unfolding reset
next_args-reset from_raw cells after offset n h =
    next_args_from from_raw (length cells) n [] cells after h (omega arith)

-- The same from the start, where nothing follows the arguments.
pub next_args-new :
    {T : Type 0} (from_raw : ℕ → Option T) (cells : List ℕ) (n : ℕ)
    → length cells < 0x2000_0000
    → next_args from_raw (length cells + n) (new (4 * length cells ∷ cells))
      ≡ map from_raw cells ++ nothing n
unfolding new
next_args-new from_raw cells n h =
    subst
      (λ memory.
        next_args from_raw (length cells + n)
          (record { params = 4 * length cells ∷ memory; offset = 0 })
        ≡ map from_raw cells ++ nothing n)
      (append-nil cells) (next_args_from from_raw (length cells) n [] cells [] h (omega arith))

module _ {T : Type 0} (from_raw : ℕ → Option T) where
  -- Reading moves the offset alone.
  pub after_args-params : (n : ℕ) (args : Args) → (after_args from_raw n args).params ≡ args.params
  unfolding after_args next_arg
  after_args-params zero args = refl
  after_args-params (suc n) args = after_args-params n (next_arg from_raw args).1

  next_args-take :
      (k m : ℕ) (args : Args) → next_args from_raw k args ≡ take k (next_args from_raw (k + m) args)
  unfolding next_args
  next_args-take zero m args = refl
  next_args-take (suc k) m args =
      let z : suc k + m ≡ suc (k + m) = omega arith in
      rw z (ap (◌∷◌ (next_arg from_raw args).0) (next_args-take k m (next_arg from_raw args).1))

  -- After a reset, any number of reads.
  pub next_args-first :
      (cells : List ℕ) (k : ℕ) (args : Args)
      → length cells < 0x2000_0000
      → args.params ≡ 4 * length cells ∷ cells
      → next_args from_raw k (reset args) ≡ take k (map from_raw cells ++ nothing k)
  unfolding reset new
  next_args-first cells k args h e =
      let z : k + length cells ≡ length cells + k = omega arith in
      ap (λ p. next_args from_raw k (record { params = p; offset = 0 })) e
      ∙ next_args-take k (length cells) (new (4 * length cells ∷ cells))
      ∙ ap (take k) (rw z (next_args-new from_raw cells k h))

pub reset-params : (args : Args) → (reset args).params ≡ args.params
unfolding reset
reset-params args = refl

pub new-params : (params : List ℕ) → (new params).params ≡ params
unfolding new
new-params params = refl
