-- ===== src/Seg/Check/Walk.antt =====
-- What mm_checkheap of mm-segregated list(97:100)/mm.c prints on a heap of blocks.
use mar_2015_dynamic_storage.Base.{
  ℕ, ◌+◌, ◌-◌, ◌*◌, Bool, not, ◌&&◌, List, [], ◌∷◌, ◌++◌, ◌==◌, ltb, if◌then◌else◌,
}
use mar_2015_dynamic_storage.Machine.Memory.{Mem, get}
use mar_2015_dynamic_storage.Seg.Check.{Message, footer_mismatch, not_coalesced, too_small, report}
use mar_2015_dynamic_storage.Seg.Lists.{Lists}
use mar_2015_dynamic_storage.Seg.Heap.{Block, bit}
use mar_2015_dynamic_storage.Seg.Heap.Coalesce.{first_used}

-- The last word of a block, after a block that is used if `p` is set, is not its header: a free block has
-- its size there, and a used one the end of its payload.
abbrev pub ends_differently : Mem → (bp : ℕ) → (p : Bool) → Block → Bool
ends_differently m bp p b =
    if b.used then not (b.size + 1 + 2 * bit p == get m (bp + b.size - 8)) else p

-- the complaints about a block with `rs` behind it
unfoldable pub complaints : Mem → (bp : ℕ) → (p : Bool) → Block → List Block → List Message
complaints m bp p b rs =
    report (ends_differently m bp p b) footer_mismatch
    ++ (report (b.used && first_used rs) (not_coalesced bp (bp + b.size))
        ++ report (ltb (get m bp) 16) (too_small bp))

-- the complaints about the blocks from `bp` on, in order
unfoldable pub all_complaints : Mem → (bp : ℕ) → (p : Bool) → List Block → List Message
all_complaints m bp p [] = []
all_complaints m bp p (b ∷ bs) = complaints m bp p b bs ++ all_complaints m (bp + b.size) b.used bs

-- the complaints about the prologue, which has 8 bytes
abbrev pub on_prologue : (heap_listp : ℕ) → List Block → List Message
on_prologue heap_listp bs =
    report (first_used bs) (not_coalesced heap_listp (heap_listp + 8)) ++ too_small heap_listp ∷ []
