-- ===== src/Driver/Util/Highwater.antt =====
-- The number that eval_mm_util keeps in `max_total_size` is the largest sum of the sizes of the blocks
-- that are allocated at one time.
use mar_2015_dynamic_storage.Base.{
  ℕ, zero, suc, ◌+◌, ◌-◌, ◌%◌, ◌^◌, ◌≤◌, ◌<◌, ◌≡◌, ◌∙◌, sym, subst, ap, refl, List, [], ◌∷◌, Option,
  none, some, ltb, if◌then◌else◌, get_or, set, length, replicate, arith, length-set,
  get_or-set_self, get_or-set_ne,
}
use native.Mathlib.Decide.{ℕ_discrete}
use mar_2015_dynamic_storage.Machine.Word.{to_int, to_size_t}
use mar_2015_dynamic_storage.Memlib.{mem_heapsize}
use mar_2015_dynamic_storage.Driver.Package.{Package}
use mar_2015_dynamic_storage.Driver.Result.{Result, done, app_error, hanging, bind}
use mar_2015_dynamic_storage.Driver.Trace.{Op, alloc, realloc, free, Trace, reinit_trace}
use mar_2015_dynamic_storage.Driver.Util.{
  Util, util_alloc, util_realloc, util_free, util_op, raise_max, util_ops, start, eval_mm_util,
}

-- For each id the size of its block, if it is allocated.
abbrev pub Live : Type 0
Live = List (Option ℕ)

abbrev held : Option ℕ → ℕ
held none = 0
held (some n) = n

unfoldable pub live_total : Live → ℕ
live_total [] = 0
live_total (o ∷ os) = held o + live_total os

abbrev pub live_op : Op → Live → Live
live_op (alloc i n) live = set live i (some n)
live_op (realloc i n) live = set live i (some n)
live_op (free none) live = live
live_op (free (some i)) live = set live i none

-- the largest total after a request, or `m`
unfoldable pub highwater : List Op → Live → ℕ → ℕ
highwater [] live m = m
highwater (op ∷ ops) live m =
    let t = live_total (live_op op live) in
    highwater ops (live_op op live) (if ltb m t then t else m)

-- A block is allocated when its id has none, and reallocated or freed when its id has one.
abbrev pub Allowed : Op → Live → Type 0
Allowed (alloc i n) live = (i < length live) × (get_or live i none ≡ none)
Allowed (realloc i n) live = (k : ℕ) × (get_or live i none ≡ some k)
Allowed (free none) live = Unit
Allowed (free (some i)) live = (k : ℕ) × (get_or live i none ≡ some k)

-- Each request is allowed, and fewer than 2 ^ 31 bytes are allocated at a time.
abbrev pub WellFormed : List Op → Live → Type 0
WellFormed [] live = Unit
WellFormed (op ∷ ops) live =
    Allowed op live × (live_total (live_op op live) < 2 ^ 31) × WellFormed ops (live_op op live)

get_or-lt : (os : Live) (i k : ℕ) → get_or os i none ≡ some k → i < length os
get_or-lt [] i k h = absurd (ground (arith, h))
get_or-lt (o ∷ os) zero k h = omega arith
get_or-lt (o ∷ os) (suc i) k h = omega (arith, get_or-lt os i k h)

live_total-set :
    (os : Live) (i : ℕ) (v : Option ℕ)
    → i < length os
    → live_total (set os i v) + held (get_or os i none) ≡ live_total os + held v
unfolding live_total
live_total-set [] i v h = absurd (omega (arith, h))
live_total-set (o ∷ os) zero v h = omega arith
live_total-set (o ∷ os) (suc i) v h = omega (arith, live_total-set os i v (omega (arith, h)))

held-le-live_total : (os : Live) (i : ℕ) → held (get_or os i none) ≤ live_total os
unfolding live_total
held-le-live_total [] i = omega arith
held-le-live_total (o ∷ os) zero = omega arith
held-le-live_total (o ∷ os) (suc i) = omega (arith, held-le-live_total os i)

module _ (pkg : Package) where
  -- The sizes that the run has noted are those of the blocks that are allocated.
  pub record Tracks (live : Live) (sizes : List ℕ) (total : ℕ) : Type 0 where
    pub lengths : length live ≡ length sizes
    pub noted : (i n : ℕ) → get_or live i none ≡ some n → get_or sizes i 0 ≡ n
    pub sum : total ≡ live_total live
    pub small : live_total live < 2 ^ 31

  util_alloc_inv :
      (i n : ℕ) (u u₁ : Util pkg)
      → util_alloc pkg i n u ≡ done u₁
      → (u₁.block_sizes ≡ set u.block_sizes i (to_size_t n))
        × (u₁.total_size ≡ (u.total_size + n) % 2 ^ 32)
        × (u₁.max_total_size ≡ u.max_total_size)
  unfolding util_alloc
  util_alloc_inv i n u u₁ h = ground (arith, h)

  util_realloc_inv :
      (i n : ℕ) (u u₁ : Util pkg)
      → util_realloc pkg i n u ≡ done u₁
      → (u₁.block_sizes ≡ set u.block_sizes i (to_size_t n))
        × (u₁.total_size ≡ (u.total_size + n + 2 ^ 32 - to_int (get_or u.block_sizes i 0)) % 2 ^ 32)
        × (u₁.max_total_size ≡ u.max_total_size)
  unfolding util_realloc
  util_realloc_inv i n u u₁ h = ground (arith, h)

  -- The noted sizes after a write, for a size below 2 ^ 31.
  noted-set :
      (live : Live) (sizes : List ℕ) (total total' i n : ℕ)
      → Tracks live sizes total
      → i < length live
      → live_total (set live i (some n)) < 2 ^ 31
      → total' + held (get_or live i none) ≡ total + n
      → Tracks (set live i (some n)) (set sizes i (to_size_t n)) total'
  noted-set live sizes total total' i n t h b e =
      let changed = live_total-set live i (some n) h in
      let fits : to_size_t n ≡ n = ground (
        arith,
        held-le-live_total (set live i (some n)) i,
        get_or-set_self live i (some n) none h,
      ) in
      record {
        lengths =
            omega (arith, t.lengths, length-set live i (some n), length-set sizes i (to_size_t n));
        noted = λ j k r. elim (ℕ_discrete i j) [
          | yes p ↦
              rw (← p, get_or-set_self sizes i (to_size_t n) 0 (omega (arith, t.lengths)), fits)
                (ground (arith, get_or-set_self live i (some n) none h, r, p))
          | no p ↦
              rw (get_or-set_ne sizes i j (to_size_t n) 0 p)
                (t.noted j k (sym (get_or-set_ne live i j (some n) none p) ∙ r))
        ];
        sum = omega (arith, changed, t.sum, e);
        small = b;
      }

  noted-free :
      (live : Live) (sizes : List ℕ) (total total' i n : ℕ)
      → Tracks live sizes total
      → get_or live i none ≡ some n
      → total' + n ≡ total
      → Tracks (set live i none) sizes total'
  noted-free live sizes total total' i n t h e =
      let inside = get_or-lt live i n h in
      let was : held (get_or live i none) ≡ n = ap held h in
      let changed = live_total-set live i none inside in
      record {
        lengths = omega (arith, t.lengths, length-set live i none);
        noted = λ j k r. elim (ℕ_discrete i j) [
          | yes p ↦ absurd (ground (arith, get_or-set_self live i none none inside, r, p))
          | no p ↦ t.noted j k (sym (get_or-set_ne live i j none none p) ∙ r)
        ];
        sum = omega (arith, changed, was, t.sum, e);
        small = omega (arith, changed, t.small);
      }

  -- A size that is part of a total below 2 ^ 31 is an `int`.
  to_int_same :
      (live : Live) (i n : ℕ)
      → i < length live
      → live_total (set live i (some n)) < 2 ^ 31
      → to_int n ≡ n
  to_int_same live i n h b = omega (
    arith,
    held-le-live_total (set live i (some n)) i,
    ap held (get_or-set_self live i (some n) none h),
  )

  util_op-Tracks :
      (op : Op) (live : Live) (u u₁ : Util pkg)
      → Tracks live u.block_sizes u.total_size
      → Allowed op live
      → live_total (live_op op live) < 2 ^ 31
      → util_op pkg op u ≡ done u₁
      → Tracks (live_op op live) u₁.block_sizes u₁.total_size
        × (u₁.max_total_size ≡ u.max_total_size)
  unfolding util_op util_free
  util_op-Tracks (alloc i n) live u u₁ t a b h =
      let same = to_int_same live i n a.0 b in
      let (sizes, total, top) = util_alloc_inv i (to_int n) u u₁ h in
      let unheld : held (get_or live i none) ≡ 0 = ap held a.1 in
      let sum : u₁.total_size + held (get_or live i none) ≡ u.total_size + n =
        omega (arith, total, same, unheld, t.sum, live_total-set live i (some n) a.0, b) in
      (
        subst (λ z. Tracks (set live i (some n)) z u₁.total_size)
            (sym (sizes ∙ ap (λ k. set u.block_sizes i (to_size_t k)) same))
            (noted-set live u.block_sizes u.total_size u₁.total_size i n t a.0 b sum),
        top,
      )
  util_op-Tracks (realloc i n) live u u₁ t (k, a) b h =
      let inside = get_or-lt live i k a in
      let same = to_int_same live i n inside b in
      let (sizes, total, top) = util_realloc_inv i (to_int n) u u₁ h in
      let was : held (get_or live i none) ≡ k = ap held a in
      let old : get_or u.block_sizes i 0 ≡ k = t.noted i k a in
      let sum : u₁.total_size + held (get_or live i none) ≡ u.total_size + n = omega (
        arith,
        total,
        same,
        was,
        old,
        t.sum,
        t.small,
        held-le-live_total live i,
        live_total-set live i (some n) inside,
        b,
      ) in
      (
        subst (λ z. Tracks (set live i (some n)) z u₁.total_size)
            (sym (sizes ∙ ap (λ k. set u.block_sizes i (to_size_t k)) same))
            (noted-set live u.block_sizes u.total_size u₁.total_size i n t inside b sum),
        top,
      )
  util_op-Tracks (free none) live u u₁ t a b h =
      let (sizes, total, top) = unchanged in
      (
        subst (λ z. Tracks live z u₁.total_size) sizes
            (subst (λ z. Tracks live u.block_sizes z) total t),
        top,
      )
    where
      unchanged :
          (u.block_sizes ≡ u₁.block_sizes)
          × (u.total_size ≡ u₁.total_size)
          × (u₁.max_total_size ≡ u.max_total_size)
      unchanged = ground (arith, h)
  util_op-Tracks (free (some i)) live u u₁ t (k, a) b h =
      let (sizes, total, top) = freed in
      let was : held (get_or live i none) ≡ k = ap held a in
      let old : get_or u.block_sizes i 0 ≡ k = t.noted i k a in
      let sum : u₁.total_size + k ≡ u.total_size =
        omega (arith, total, was, old, t.sum, t.small, held-le-live_total live i) in
      (
        subst (λ z. Tracks (set live i none) z u₁.total_size) sizes
            (noted-free live u.block_sizes u.total_size u₁.total_size i k t a sum),
        top,
      )
    where
      freed :
          (u.block_sizes ≡ u₁.block_sizes)
          × (u₁.total_size ≡ (u.total_size + 2 ^ 32 - to_int (get_or u.block_sizes i 0)) % 2 ^ 32)
          × (u₁.max_total_size ≡ u.max_total_size)
      freed = ground (arith, h)

  bind_inv :
      {A B : Type 0} (r : Result A) (k : A → Result B) (u' : B)
      → bind r k ≡ done u'
      → (u₁ : A) × (r ≡ done u₁) × (k u₁ ≡ done u')
  bind_inv (done u₁) k u' h = (u₁, refl, h)
  bind_inv app_error k u' h = absurd (ground (arith, h))
  bind_inv hanging k u' h = absurd (ground (arith, h))

  util_ops-highwater :
      (ops : List Op) (live : Live) (u u' : Util pkg)
      → Tracks live u.block_sizes u.total_size
      → u.max_total_size < 2 ^ 31
      → WellFormed ops live
      → util_ops pkg ops u ≡ done u'
      → u'.max_total_size ≡ highwater ops live u.max_total_size
  unfolding util_ops highwater raise_max
  util_ops-highwater [] live u u' t m w h = ground (arith, h)
  util_ops-highwater (op ∷ ops) live u u' t m (a, b, w) h =
      let (u₁, r, rest) =
        bind_inv (util_op pkg op u) (λ u₁. util_ops pkg ops (raise_max pkg u₁)) u' h in
      let (t₁, top) = util_op-Tracks op live u u₁ t a b r in
      let raised : (raise_max pkg u₁).max_total_size ≡ (
          if ltb u.max_total_size (live_total (live_op op live))
          then live_total (live_op op live)
          else u.max_total_size) =
        ground (arith, top, t₁.sum, b, m) in
      util_ops-highwater ops (live_op op live) (raise_max pkg u₁) u' t₁
        (ground (arith, top, t₁.sum, b, m)) w rest
      ∙ ap (highwater ops (live_op op live)) raised

  none_live : (n : ℕ) → live_total (replicate n none) ≡ 0
  unfolding live_total
  none_live zero = refl
  none_live (suc n) = omega (arith, none_live n)

  get_or-none : (n i : ℕ) → get_or {A = Option ℕ} (replicate n none) i none ≡ none
  get_or-none zero i = refl
  get_or-none (suc n) zero = refl
  get_or-none (suc n) (suc i) = get_or-none n i

  same_lengths : (n : ℕ) → length {A = Option ℕ} (replicate n none) ≡ length {A = ℕ} (replicate n 0)
  same_lengths zero = refl
  same_lengths (suc n) = ap suc (same_lengths n)

  start-Tracks : (n : ℕ) → Tracks (replicate n none) (replicate n 0) 0
  start-Tracks n = record {
    lengths = same_lengths n;
    noted = λ i k r. absurd (ground (arith, r, get_or-none n i));
    sum = sym (none_live n);
    small = omega (arith, none_live n);
  }

  abbrev measured : Util pkg → Result ((ℕ × ℕ) × Util pkg)
  measured u = done ((u.max_total_size, mem_heapsize (pkg.sys u.state)), u)

  abbrev of_result : ((ℕ × ℕ) × Util pkg → ℕ) → Result ((ℕ × ℕ) × Util pkg) → ℕ
  of_result f (done r) = f r
  of_result f app_error = 0
  of_result f hanging = 0

  start_inv :
      (trace : Trace) (s : pkg.State) (u : Util pkg)
      → start pkg trace s ≡ done u
      → (u.block_sizes ≡ replicate trace.num_ids 0) × (u.total_size ≡ 0) × (u.max_total_size ≡ 0)
  unfolding start reinit_trace
  start_inv trace s u h = ground (arith, h)

  -- On a trace in which blocks are allocated, reallocated and freed in turn and fewer than 2 ^ 31 bytes
  -- are allocated at a time: when eval_mm_util returns, it returns the quotient of the largest sum of
  -- the sizes of the blocks allocated at one time, 0 included, and of the size of the heap at the end.
  pub eval_mm_util-highwater :
      (trace : Trace) (s : pkg.State) (top heap : ℕ) (u : Util pkg)
      → WellFormed trace.ops (replicate trace.num_ids none)
      → eval_mm_util pkg trace s ≡ done ((top, heap), u)
      → (top ≡ highwater trace.ops (replicate trace.num_ids none) 0)
        × (heap ≡ mem_heapsize (pkg.sys u.state))
  unfolding eval_mm_util
  eval_mm_util-highwater trace s top heap u w h =
      let live : Live = replicate trace.num_ids none in
      let (u₀, begun, more) = bind_inv (start pkg trace s) _ ((top, heap), u) h in
      let (u₁, ran, result) = bind_inv (util_ops pkg trace.ops u₀) _ ((top, heap), u) more in
      let (sizes, total, none_yet) = start_inv trace s u₀ begun in
      let tracks : Tracks live u₀.block_sizes u₀.total_size =
        subst (λ z. Tracks live z u₀.total_size) (sym sizes)
          (subst (λ z. Tracks live (replicate trace.num_ids 0) z) (sym total)
            (start-Tracks trace.num_ids)) in
      let top_eq =
        util_ops-highwater trace.ops live u₀ u₁ tracks (omega (arith, none_yet)) w ran
        ∙ ap (highwater trace.ops live) none_yet in
      let (a, b) = final u₁ result in (a ∙ top_eq, b)
    where
      final :
          (u₁ : Util pkg)
          → measured u₁ ≡ done ((top, heap), u)
          → (top ≡ u₁.max_total_size) × (heap ≡ mem_heapsize (pkg.sys u.state))
      final u₁ e = (
        sym (ap (of_result (λ r. r.0.0)) e),
        sym (ap (of_result (λ r. r.0.1)) e)
            ∙ ap (of_result (λ r. mem_heapsize (pkg.sys r.1.state))) e,
      )
