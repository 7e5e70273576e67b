-- ===== src/Driver/Read/Tests.antt =====
-- Reading a trace of three requests from a list of tokens.
use mar_2015_dynamic_storage.Base.{
  ℕ, ◌+◌, ◌≡◌, refl, true, false, List, [], ◌∷◌, Option, none, some, arith,
}
use mar_2015_dynamic_storage.Driver.Trace.{alloc, realloc, free, Trace}
use mar_2015_dynamic_storage.Driver.Read.{Scanner, read_trace, parsed}
use mar_2015_dynamic_storage.Driver.Read.Roundtrip.{
  Token, word, int, Reads, top_index, print_trace, read_trace-print_trace,
}

take_int : List Token → Option ℕ × List Token
take_int [] = (none, [])
take_int (int n ∷ ts) = (some n, ts)
take_int (word c ∷ ts) = (none, word c ∷ ts)

take_word : List Token → Option ℕ × List Token
take_word [] = (none, [])
take_word (word c ∷ ts) = (some c, ts)
take_word (int n ∷ ts) = (some n, ts)

abbrev tokens : Scanner
tokens = record {
  File = List Token;
  scan_int = take_int;
  scan_ud = take_int;
  scan_word = take_word;
}

tokens-Reads : Reads tokens
unfolding take_int take_word
tokens-Reads = record {
  render = λ ts. ts;
  scan_int-int = λ n ts h. refl;
  scan_ud-int = λ n ts h. refl;
  scan_word-word = λ c ts. refl;
  scan_word-end = refl;
}

abbrev sample : Trace
sample = record {
  ignore_ranges = true;
  num_ids = 2;
  ops = alloc 1 40 ∷ realloc 0 7 ∷ free none ∷ [];
  blocks = 0 ∷ 0 ∷ [];
  block_sizes = 0 ∷ 0 ∷ [];
  block_rand_base = 0 ∷ 0 ∷ [];
}

ids : 2 ≡ top_index (alloc 1 40 ∷ realloc 0 7 ∷ free none ∷ []) 0 + 1
unfolding top_index
ids = refl

read_trace-print_trace_example :
    read_trace tokens (some (tokens-Reads.render (print_trace 1 sample))) (λ k. false) (λ k. 9) 5 3
    ≡ parsed sample 1 3
read_trace-print_trace_example =
    read_trace-print_trace tokens tokens-Reads 1 2 3 5 true (alloc 1 40)
      (realloc 0 7 ∷ free none ∷ []) (λ k. 9) (omega arith) (omega arith) (omega arith)
      (omega arith) ids (omega arith)
