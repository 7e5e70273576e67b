-- ===== src/Driver/Read/Roundtrip.antt =====
-- A trace that is written out in the format of the trace files is read back.
use mar_2015_dynamic_storage.Base.{
  ℕ, zero, suc, ◌+◌, ◌-◌, ◌^◌, ◌≤◌, ◌<◌, ◌≡◌, ◌∙◌, sym, refl, Bool, true, false, List, [], ◌∷◌,
  ◌++◌, none, some, ◌==◌, ltb, if◌then◌else◌, replicate, length, arith,
}
use mathlib.Core.List.{append_assoc}
use mar_2015_dynamic_storage.Machine.Word.{to_size_t, lt_int}
use mar_2015_dynamic_storage.Driver.Trace.{Op, alloc, realloc, free, Trace}
use mar_2015_dynamic_storage.Driver.Read.{
  Scanner, parsed, Reading, scan_pair, read_op, read_ops, finish, read_trace,
}

-- what a trace file holds between blanks
pub data Token : Type 0 where
  word : ℕ → Token
  int : ℕ → Token

-- What fscanf promises on a file that holds the tokens: it takes an integer, or a word, that comes
-- next, and no word at the end of the file.
pub record Reads (sc : Scanner) : Type 0 where
  pub render : List Token → sc.File
  pub scan_int-int :
      (n : ℕ) (ts : List Token)
      → n < 2 ^ 32
      → sc.scan_int (render (int n ∷ ts)) ≡ (some n, render ts)
  pub scan_ud-int :
      (n : ℕ) (ts : List Token)
      → n < 2 ^ 32
      → sc.scan_ud (render (int n ∷ ts)) ≡ (some n, render ts)
  pub scan_word-word :
      (c : ℕ) (ts : List Token) → sc.scan_word (render (word c ∷ ts)) ≡ (some c, render ts)
  pub scan_word-end : sc.scan_word (render []) ≡ (none, render [])

abbrev pub letter : Op → ℕ
letter (alloc i n) = b'a'
letter (realloc i n) = b'r'
letter (free i) = b'f'

-- -1 is written as such, and read as the bit pattern
abbrev pub print_args : Op → List Token → List Token
print_args (alloc i n) ts = int i ∷ int n ∷ ts
print_args (realloc i n) ts = int i ∷ int n ∷ ts
print_args (free none) ts = int (2 ^ 32 - 1) ∷ ts
print_args (free (some i)) ts = int i ∷ ts

unfoldable pub print_ops : List Op → List Token
print_ops [] = []
print_ops (op ∷ ops) = word (letter op) ∷ print_args op (print_ops ops)

abbrev pub bit : Bool → ℕ
bit true = 1
bit false = 0

unfoldable pub print_trace : (weight : ℕ) → Trace → List Token
print_trace weight t =
    int weight ∷ int t.num_ids ∷ int (length t.ops) ∷ int (bit t.ignore_ranges) ∷ print_ops t.ops

-- the largest index of an ALLOC or REALLOC, or `m`
abbrev larger : ℕ → ℕ → ℕ
larger m i = if ltb m i then i else m

unfoldable pub top_index : List Op → ℕ → ℕ
top_index [] m = m
top_index (alloc i n ∷ ops) m = top_index ops (larger m i)
top_index (realloc i n ∷ ops) m = top_index ops (larger m i)
top_index (free i ∷ ops) m = top_index ops m

-- Indices and sizes are not negative as `int`s.
abbrev pub IsSmall : Op → Type 0
IsSmall (alloc i n) = (i < 2 ^ 31) × (n < 2 ^ 31)
IsSmall (realloc i n) = (i < 2 ^ 31) × (n < 2 ^ 31)
IsSmall (free none) = Unit
IsSmall (free (some i)) = i < 2 ^ 31

abbrev pub AllSmall : List Op → Type 0
AllSmall [] = Unit
AllSmall (op ∷ ops) = IsSmall op × AllSmall ops

module _ (sc : Scanner) (law : Reads sc) where
  open law use {render}

  -- the variables of the loop after a request
  abbrev stored : Op → Reading → Reading
  stored (alloc i n) r = record r {
    index = i;
    size = n;
    max_index = larger r.max_index i;
    ops = r.ops ++ alloc i n ∷ [];
  }
  stored (realloc i n) r = record r {
    index = i;
    size = n;
    max_index = larger r.max_index i;
    ops = r.ops ++ realloc i n ∷ [];
  }
  stored (free none) r = record r { index = 2 ^ 32 - 1; ops = r.ops ++ free none ∷ [] }
  stored (free (some i)) r = record r { index = i; ops = r.ops ++ free (some i) ∷ [] }

  small_size : (n : ℕ) → n < 2 ^ 31 → to_size_t n ≡ n
  small_size n h = ground arith

  small_order : (m i : ℕ) → m < 2 ^ 31 → i < 2 ^ 31 → lt_int m i ≡ ltb m i
  small_order m i h k = ground arith

  scan_pair-int :
      (i n : ℕ) (ts : List Token) (r : Reading)
      → i < 2 ^ 31
      → n < 2 ^ 31
      → scan_pair sc (render (int i ∷ int n ∷ ts)) r ≡ (record r { index = i; size = n }, render ts)
  unfolding scan_pair
  scan_pair-int i n ts r h k =
      ground (arith, law.scan_int-int i (int n ∷ ts), law.scan_int-int n ts)

  read_op-stored :
      (op : Op) (ts : List Token) (r : Reading)
      → IsSmall op
      → r.max_index < 2 ^ 31
      → read_op sc (letter op) (render (print_args op ts)) r ≡ some (stored op r, render ts)
  unfolding read_op
  read_op-stored (alloc i n) ts r s m =
      rw (scan_pair-int i n ts r s.0 s.1, small_size n s.1, small_order r.max_index i m s.0)
  read_op-stored (realloc i n) ts r s m =
      rw (scan_pair-int i n ts r s.0 s.1, small_size n s.1, small_order r.max_index i m s.0)
  read_op-stored (free none) ts r s m = rw (law.scan_ud-int (2 ^ 32 - 1) ts (omega arith))
  read_op-stored (free (some i)) ts r s m =
      let other : (i == 2 ^ 32 - 1) ≡ false = ground arith in
      rw (law.scan_ud-int i ts (omega arith), other)

  stored_fields :
      (op : Op) (r : Reading)
      → ((stored op r).ops ≡ r.ops ++ op ∷ [])
        × ((stored op r).op_index ≡ r.op_index)
        × ((stored op r).max_index ≡ top_index (op ∷ []) r.max_index)
        × (IsSmall op → r.max_index < 2 ^ 31 → (stored op r).max_index < 2 ^ 31)
  unfolding top_index
  stored_fields (alloc i n) r = (refl, refl, refl, λ s m. ground (arith, s, m))
  stored_fields (realloc i n) r = (refl, refl, refl, λ s m. ground (arith, s, m))
  stored_fields (free none) r = (refl, refl, refl, λ s m. m)
  stored_fields (free (some i)) r = (refl, refl, refl, λ s m. m)

  top_index-cons :
      (op : Op) (ops : List Op) (m : ℕ)
      → top_index (op ∷ ops) m ≡ top_index ops (top_index (op ∷ []) m)
  unfolding top_index
  top_index-cons (alloc i n) ops m = refl
  top_index-cons (realloc i n) ops m = refl
  top_index-cons (free i) ops m = refl

  -- The loop stores all requests, if their number is the one announced.
  read_ops-print_ops :
      (ops : List Op) (op : Op) (num_ops fuel : ℕ) (r : Reading)
      → AllSmall (op ∷ ops)
      → r.max_index < 2 ^ 31
      → r.op_index + length (op ∷ ops) ≡ num_ops
      → length (op ∷ ops) ≤ fuel
      → (r₁ : Reading) × (read_ops sc num_ops fuel (render (print_ops (op ∷ ops))) r
          ≡ some (r₁, none))
        × (r₁.ops ≡ r.ops ++ op ∷ ops)
        × (r₁.max_index ≡ top_index (op ∷ ops) r.max_index)
        × (r₁.op_index ≡ num_ops)
  unfolding read_ops print_ops
  read_ops-print_ops ops op num_ops zero r s m e f = absurd (omega arith)
  read_ops-print_ops [] op num_ops (suc fuel) r s m e f =
      let (a, b, c, d) = stored_fields op r in
      let last : ((stored op r).op_index + 1 == num_ops) ≡ true = ground (arith, b, e) in
      (
        record (stored op r) { op_index = (stored op r).op_index + 1 },
        ground (
          arith,
          law.scan_word-word (letter op) (print_args op []),
          read_op-stored op [] r s.0 m,
          last,
        ),
        a,
        c,
        omega (arith, b, e),
      )
  read_ops-print_ops (o ∷ ops) op num_ops (suc fuel) r s m e f =
      let (a, b, c, d) = stored_fields op r in
      let r₂ : Reading = record (stored op r) { op_index = (stored op r).op_index + 1 } in
      let more : ((stored op r).op_index + 1 == num_ops) ≡ false = ground (arith, b, e) in
      let (r₁, run, all, top, count) =
        read_ops-print_ops ops o num_ops fuel r₂ s.1 (d s.0 m) (omega (arith, b, e))
          (omega arith) in
      (
        r₁,
        ground (
          arith,
          law.scan_word-word (letter op) (print_args op (print_ops (o ∷ ops))),
          read_op-stored op (print_ops (o ∷ ops)) r s.0 m,
          more,
          run,
        ),
        all ∙ rw (a, append_assoc),
        top ∙ sym (top_index-cons op (o ∷ ops) r.max_index ∙ rw c),
        count,
      )

  bit-eq-one : (b : Bool) → (bit b == 1) ≡ b
  bit-eq-one true = refl
  bit-eq-one false = refl

  bit-le-one : (b : Bool) → bit b ≤ 1
  bit-le-one true = omega arith
  bit-le-one false = omega arith

  -- A trace that is ready for a run, with at least one request, small indices and sizes, and as many
  -- ids as its ALLOC and REALLOC requests use: read_trace reads back what was written out, when the
  -- allocations succeed, the weight is at most 3, and the fuel is at least the number of requests.
  pub read_trace-print_trace :
      (weight num_ids fuel size₀ : ℕ) (ignore_ranges : Bool) (op : Op) (ops : List Op)
      (left : ℕ → ℕ)
      → weight ≤ 3
      → length (op ∷ ops) < 2 ^ 31
      → length (op ∷ ops) ≤ fuel
      → AllSmall (op ∷ ops)
      → num_ids ≡ top_index (op ∷ ops) 0 + 1
      → num_ids < 2 ^ 32
      → let t : Trace = record {
        ignore_ranges = ignore_ranges;
        num_ids = num_ids;
        ops = op ∷ ops;
        blocks = replicate num_ids 0;
        block_sizes = replicate num_ids 0;
        block_rand_base = replicate num_ids 0;
      } in
        read_trace sc (some (render (print_trace weight t))) (λ k. false) left size₀ fuel
        ≡ parsed t weight (length (op ∷ ops))
  unfolding read_trace print_trace finish
  read_trace-print_trace weight num_ids fuel size₀ ignore_ranges op ops left w n f s ids i =
      let all = op ∷ ops in
      let count : ℕ = length all in
      let body = print_ops all in
      let r₀ : Reading = record {
        index = 0;
        size = size₀;
        max_index = 0;
        op_index = 0;
        ops = [];
      } in
      let (r, run, stored_ops, top, counted) =
        read_ops-print_ops ops op count fuel r₀ s (omega arith) (omega arith) f in
      let one = bit-le-one ignore_ranges in
      let e₁ =
        law.scan_int-int weight (int num_ids ∷ int count ∷ int (bit ignore_ranges) ∷ body)
          (omega arith) in
      let e₂ = law.scan_int-int num_ids (int count ∷ int (bit ignore_ranges) ∷ body) i in
      let e₃ = law.scan_int-int count (int (bit ignore_ranges) ∷ body) (omega arith) in
      let e₄ = law.scan_int-int (bit ignore_ranges) body (omega arith) in
      ground (arith, e₁, e₂, e₃, e₄, run, stored_ops, top, counted, ids, bit-eq-one ignore_ranges)
