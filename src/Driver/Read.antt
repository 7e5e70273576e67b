-- ===== src/Driver/Read.antt =====
-- read_trace of malloclab-handout/mdriver.c. fopen, fscanf and the C library's allocations are
-- parameters; file names and what `verbose` prints are left out.
pub mod Roundtrip
pub mod Weight
mod Tests
use mar_2015_dynamic_storage.Base.{
  ℕ, zero, suc, ◌+◌, ◌-◌, ◌%◌, ◌^◌, Bool, true, false, ◌&&◌, ◌||◌, not, List, [], ◌∷◌, ◌++◌, Option,
  none, some, ◌==◌, ltb, if◌then◌else◌, replicate,
}
use mar_2015_dynamic_storage.Machine.Word.{to_size_t, lt_int}
use mar_2015_dynamic_storage.Driver.Trace.{Op, alloc, realloc, free, Trace}

-- What fscanf does with an open file: `%d` or `%u` into an `int`, as a bit pattern; `%ud`; and `%s`, of
-- which the first character counts. `none` is a failure, which leaves the variable alone.
pub record Scanner : Type 1 where
  pub File : Type 0
  pub scan_int : File → Option ℕ × File
  pub scan_ud : File → Option ℕ × File
  pub scan_word : File → Option ℕ × File

-- The trace with its weight and its number of requests; the end of the program at a failed call of
-- the system, by app_error or at an assertion; or no end within the fuel.
pub data ReadResult : Type 0 where
  parsed : Trace → (weight num_ops : ℕ) → ReadResult
  unix_error : ReadResult
  bad_weight bad_ignore_ranges : ReadResult
  bogus_type : ℕ → ReadResult
  assertion_failed : ReadResult
  out_of_fuel : ReadResult

-- the variables of the loop, and the requests stored so far
pub record Reading : Type 0 where
  pub index : ℕ
  pub size : ℕ
  pub max_index : ℕ
  pub op_index : ℕ
  pub ops : List Op

abbrev pub or_else : Option ℕ → ℕ → ℕ
or_else none d = d
or_else (some n) d = n

module _ (sc : Scanner) where
  open sc use {File, scan_int, scan_ud, scan_word}

  -- `fscanf(tracefile, "%u %u", &index, &size)`: the second number is read only after the first
  unfoldable pub scan_pair : File → Reading → Reading × File
  scan_pair f r =
      let (i, f₁) = scan_int f in
      elim i [
        | none ↦ (r, f₁)
        | some index ↦
            let (n, f₂) = scan_int f₁ in (record r { index = index; size = or_else n r.size }, f₂)
      ]

  abbrev pub raise_index : Reading → Reading
  raise_index r = record r {
    max_index = if lt_int r.max_index r.index then r.index else r.max_index;
  }

  -- the `switch` for the character `c`; `none` is a bogus type
  unfoldable pub read_op : ℕ → File → Reading → Option (Reading × File)
  read_op c f r =
      if c == b'a'
      then (let (r₁, f₁) = scan_pair f r in
          some (
            raise_index (record r₁ { ops = r₁.ops ++ alloc r₁.index (to_size_t r₁.size) ∷ [] }),
            f₁,
          ))
      else if c == b'r'
      then (let (r₁, f₁) = scan_pair f r in
          some (
            raise_index (record r₁ { ops = r₁.ops ++ realloc r₁.index (to_size_t r₁.size) ∷ [] }),
            f₁,
          ))
      else if c == b'f'
      then (let (i, f₁) = scan_ud f in
          let index = or_else i r.index in
          let target = if index == 2 ^ 32 - 1 then none else some index in
          some (record r { index = index; ops = r.ops ++ free target ∷ [] }, f₁))
      else none

  -- the `while` loop: the last state, or the character of a bogus type
  unfoldable pub read_ops : (num_ops fuel : ℕ) → File → Reading → Option (Reading × Option ℕ)
  read_ops num_ops zero f r = none
  read_ops num_ops (suc fuel) f r =
      let (word, f₁) = scan_word f in
      elim word [
        | none ↦ some (r, none)
        | some c ↦ elim (read_op c f₁ r) [
          | none ↦ some (r, some c)
          | some (r₁, f₂) ↦
              let r₂ : Reading = record r₁ { op_index = r₁.op_index + 1 } in
              let rest = read_ops num_ops fuel f₂ r₂ in
              if r₂.op_index == num_ops then some (r₂, none) else rest
        ]
      ]

  -- from the loop to the end
  unfoldable pub finish :
      (weight num_ids num_ops : ℕ) → Bool → Option (Reading × Option ℕ) → ReadResult
  finish weight num_ids num_ops ignore_ranges none = out_of_fuel
  finish weight num_ids num_ops ignore_ranges (some (r, some c)) = bogus_type c
  finish weight num_ids num_ops ignore_ranges (some (r, none)) =
      if not (r.max_index == (num_ids + 2 ^ 32 - 1) % 2 ^ 32)
      then assertion_failed
      else if not (num_ops == r.op_index)
      then assertion_failed
      else parsed
          (record {
            ignore_ranges = ignore_ranges;
            num_ids = num_ids;
            ops = r.ops;
            blocks = replicate num_ids 0;
            block_sizes = replicate num_ids 0;
            block_rand_base = replicate num_ids 0;
          })
          weight num_ops

  -- `opened` is the result of fopen, `fails k` whether the k-th allocation fails, `left k` what a number
  -- of the header holds that could not be read, and `size₀` what `size` holds at first.
  unfoldable pub read_trace :
      (opened : Option File) (fails : ℕ → Bool) (left : ℕ → ℕ) (size₀ fuel : ℕ) → ReadResult
  read_trace none fails left size₀ fuel = unix_error
  read_trace (some f₀) fails left size₀ fuel =
      let (a₁, f₁) = scan_int f₀ in
      let (a₂, f₂) = scan_int f₁ in
      let (a₃, f₃) = scan_int f₂ in
      let (a₄, f₄) = scan_int f₃ in
      let weight = or_else a₁ (left 0) in
      let num_ids = or_else a₂ (left 1) in
      let num_ops = or_else a₃ (left 2) in
      let ignore_ranges = or_else a₄ (left 3) in
      if fails 1
      then unix_error
      else if ltb 3 weight
      then bad_weight
      else if ltb 1 ignore_ranges
      then bad_ignore_ranges
      else if fails 2 || fails 3 || fails 4 || fails 5
      then unix_error
      else finish weight num_ids num_ops (ignore_ranges == 1) (
          read_ops num_ops fuel f₄
            (record { index = 0; size = size₀; max_index = 0; op_index = 0; ops = [] }))
