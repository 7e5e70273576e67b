-- ===== src/Driver/Tests/Runs.antt =====
-- The measured and the timed run of the naive allocator on the trace of four requests.
use mar_2015_dynamic_storage.Base.{ℕ, ◌+◌, All, ◌≡◌, refl, arith, [], none, replicate}
use mar_2015_dynamic_storage.Machine.Memory.{get, put, memcpy}
use mar_2015_dynamic_storage.Memlib.{mem_sbrk, mem_reset_brk, mem_heapsize}
use mar_2015_dynamic_storage.Naive
use mar_2015_dynamic_storage.Driver.Result.{Result, done, app_error, hanging}
use mar_2015_dynamic_storage.Driver.Trace.{Trace, reinit_trace}
use mar_2015_dynamic_storage.Driver.Libc.{LibraryPackage, eval_libc_speed, eval_libc_valid}
use mar_2015_dynamic_storage.Driver.Libc.Same.{IsIntSized, eval_libc_speed-eval_libc_valid}
use mar_2015_dynamic_storage.Driver.Util
use mar_2015_dynamic_storage.Driver.Util.{
  Util, util_alloc, util_realloc, util_free, util_op, raise_max, util_ops, eval_mm_util,
}
use mar_2015_dynamic_storage.Driver.Util.Highwater.{
  highwater, live_total, WellFormed, eval_mm_util-highwater,
}
use mar_2015_dynamic_storage.Driver.Speed.{eval_mm_speed}
use mar_2015_dynamic_storage.Driver.Speed.Same.{timed, map_done, eval_mm_speed-eval_mm_util}
use mar_2015_dynamic_storage.Driver.Tests.{naive, boot, start}

abbrev trace : Trace
trace = start.trace

last_of : Result ((ℕ × ℕ) × Util naive) → Util naive
last_of (done r) = r.1
last_of app_error = record {
  state = boot;
  blocks = [];
  block_sizes = [];
  total_size = 0;
  max_total_size = 0;
}
last_of hanging = record {
  state = boot;
  blocks = [];
  block_sizes = [];
  total_size = 0;
  max_total_size = 0;
}

abbrev last : Util naive
last = last_of (eval_mm_util naive trace boot)

-- At most 12 bytes are allocated at a time, in a heap of 56 bytes.
used : eval_mm_util naive trace boot ≡ done ((12, 56), last)
unfolding last_of eval_mm_util util_ops util_op util_alloc util_realloc util_free raise_max
    Util.start reinit_trace mem_reset_brk mem_heapsize mem_sbrk Naive.mm_init Naive.malloc
    Naive.free Naive.realloc Naive.align Naive.get_size Naive.put_size get put memcpy
used = refl

allowed : WellFormed trace.ops (replicate 2 none)
unfolding live_total
allowed = (
  (omega arith, refl),
  omega arith,
  ((omega arith, refl), omega arith, ((2, refl), omega arith, ((3, refl), omega arith, tt))),
)

eval_mm_util-highwater_example :
    (12 ≡ highwater trace.ops (replicate 2 none) 0) × (56 ≡ mem_heapsize (last.state.sys))
eval_mm_util-highwater_example = eval_mm_util-highwater naive trace boot 12 56 last allowed used

eval_mm_speed-eval_mm_util_example :
    eval_mm_speed naive trace boot
    ≡ map_done naive (λ r. timed naive r.1) (eval_mm_util naive trace boot)
eval_mm_speed-eval_mm_util_example = eval_mm_speed-eval_mm_util naive trace boot

-- a library that hands out consecutive payloads
abbrev bump : LibraryPackage
bump = record {
  State = ℕ;
  lib_malloc = λ n s. (s, s + n);
  lib_realloc = λ p n s. (s, s + n);
  lib_free = λ p s. s;
}

int_sized : All IsIntSized trace.ops
int_sized = (omega arith, (omega arith, (tt, (tt, tt))))

eval_libc_speed-eval_libc_valid_example :
    eval_libc_speed bump trace 8 ≡ eval_libc_valid bump trace 8
eval_libc_speed-eval_libc_valid_example = eval_libc_speed-eval_libc_valid bump trace 8 int_sized
