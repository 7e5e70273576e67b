-- ===== src/Seg/Tests.antt =====
-- Runs of the segregated allocator, and its theorems at concrete heaps.
mod Checking
mod Heaps
mod Placing
mod Tiled
mod Requests
mod Payloads
mod Sequences
use mar_2015_dynamic_storage.Base.{ℕ, ◌+◌, ◌-◌, ◌^◌, none, some, ◌≡◌, refl, List, [], ◌∷◌, true}
use mar_2015_dynamic_storage.Machine.Memory.{get, put}
use mar_2015_dynamic_storage.Machine.State.{State}
use mar_2015_dynamic_storage.Memlib.{Sbrk, mem_sbrk, max_heap}
use mar_2015_dynamic_storage.Links
use mar_2015_dynamic_storage.Seg.{
  list_of, freelist_insert, freelist_delete, coalesce, place, coalesce_next, coalesce_prev,
  coalesce_both,
}
use mar_2015_dynamic_storage.Seg.Sizes.{list_entry, adjust, extend_size}
use mar_2015_dynamic_storage.Seg.Fit.{walk, find_block, fit_from, find_fit}
use mar_2015_dynamic_storage.Seg.Package.{
  even_bytes, new_block, extend_heap, clear_lists, init_words, mm_init, init_if_needed,
  malloc_extend, mm_malloc, release, mm_free,
}

abbrev willing : Sbrk
willing k incr = true

abbrev base : ℕ
base = 2 ^ 35

abbrev boot : State
boot = record {
  mem = λ a. 0;
  sys = record { heap = base; mem_brk = base; mem_max_addr = base + max_heap; sbrk_calls = 0 };
  heap_listp = 0;
  free_listp = 0;
}

abbrev Run : Type 0
Run = List ℕ × State

-- mm_malloc, with the payload's distance from the start of the heap noted in front
then_malloc : ℕ → Run → Run
unfolding mm_malloc find_fit fit_from find_block walk malloc_extend extend_heap new_block even_bytes
    extend_size init_if_needed mm_init init_words clear_lists mem_sbrk coalesce coalesce_next
    coalesce_prev coalesce_both place freelist_insert freelist_delete list_of list_entry adjust
    Links.insert Links.delete Links.delete_only Links.delete_last Links.delete_first
    Links.delete_middle get put
then_malloc n (ps, s) = elim (mm_malloc willing n s) [
  | none ↦ (ps, s)
  | some (p, s') ↦ ((p - base) ∷ ps, s')
]

then_free : ℕ → Run → Run
unfolding mm_free release then_malloc
then_free p (ps, s) = (ps, mm_free willing (base + p) s)

-- the payloads of three requests, aligned and apart
three_requests :
    (then_malloc 5000 (then_malloc 100 (then_malloc 10 ([], boot)))).0 ≡ 232 ∷ 128 ∷ 112 ∷ []
unfolding then_malloc
three_requests = refl

-- The second of three blocks of 104 bytes is freed, then the first, next to it; then requests of 200
-- and of 100 bytes get payloads at 112 and at 216, of which the first reaches up to 312.
overlapping_payloads :
    (then_malloc 100 (
      then_malloc 200 (
        then_free 112
          (then_free 216 (then_malloc 100 (then_malloc 100 (then_malloc 100 ([], boot)))))))).0
    ≡ 216 ∷ 112 ∷ 320 ∷ 216 ∷ 112 ∷ []
unfolding then_malloc then_free
overlapping_payloads = refl
