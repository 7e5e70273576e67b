-- ===== src/Driver/Trace.antt =====
-- The traces of malloclab-handout/mdriver.c, and the driver's state during an evaluation.
use mar_2015_dynamic_storage.Base.{ℕ, List, Option, Bool, replicate}

-- `traceop_t`. The index -1 of a FREE is `none`.
pub data Op : Type 0 where
  alloc : (index size : ℕ) → Op
  realloc : (index size : ℕ) → Op
  free : Option ℕ → Op

pub data DebugMode : Type 0 where
  dbg_none dbg_cheap dbg_expensive : DebugMode

-- `trace_t` without its file name and its count of requests
pub record Trace : Type 0 where
  pub ignore_ranges : Bool
  pub num_ids : ℕ
  pub ops : List Op
  pub blocks : List ℕ
  pub block_sizes : List ℕ
  pub block_rand_base : List ℕ

unfoldable pub reinit_trace : Trace → Trace
reinit_trace t = record t { blocks = replicate t.num_ids 0; block_sizes = replicate t.num_ids 0 }
