-- ===== src/Seg/Heap/Coalesce.antt =====
-- coalesce on a heap in which a block is free and in no list yet: which of the four cases runs.
pub mod Alone
pub mod Before
use mar_2015_dynamic_storage.Base.{
  ℕ, ◌+◌, ◌-◌, ◌*◌, ◌/◌, ◌%◌, ◌^◌, ◌≤◌, ◌<◌, ◌≡◌, ◌⊎◌, inl, inr, Bool, true, false, List, [], ◌∷◌,
  ◌++◌, All, arith, refl, sym, ap, ◌∙◌, subst, ◌==◌, not,
}
use mar_2015_dynamic_storage.Machine.Memory.{Mem, get}
use mar_2015_dynamic_storage.Machine.Word.{bit0, bit1}
use mar_2015_dynamic_storage.Blocks.{get_size, hdrp, next_blkp, get_alloc, get_prev_alloc}
use mar_2015_dynamic_storage.Links.Chain.{Clear, Far}
use mar_2015_dynamic_storage.Seg.Lists.{Lists, head, IsNew}
use mar_2015_dynamic_storage.Seg.Frame.{Outside}
use mar_2015_dynamic_storage.Seg.Heap.{
  Block, bit, end_of, last_used, InPlace, Tiled, FreeAt, IsMember, IsLaidOut,
}
use mar_2015_dynamic_storage.Seg.Heap.Words.{Sizes, RowWord, bit_bound}
use mar_2015_dynamic_storage.Seg.Heap.Around.{free_block, used_block}

-- whether the first block, or the epilogue, is used
unfoldable pub first_used : List Block → Bool
first_used [] = true
first_used (b ∷ rs) = b.used

pub first_bit :
    (m : Mem) (y : ℕ) (p : Bool) (rs : List Block)
    → Tiled m y p rs
    → bit0 (get m (y - 4)) ≡ bit (first_used rs)
unfolding first_used
first_bit m y p [] t = omega (arith, t)
first_bit m y p (b ∷ rs) t = omega (arith, t.0, bit_bound b.used)

pub not-bit : (u : Bool) → not (bit u == 0) ≡ u
not-bit true = refl
not-bit false = refl

not-double : (u : Bool) → not (2 * bit u == 0) ≡ u
not-double true = refl
not-double false = refl

-- What coalesce reads of the neighbours of the free block of `n` bytes at `here`.
pub neighbours :
    (m : Mem) (here n : ℕ) (p : Bool) (rs : List Block)
    → Tiled m here p (free_block n ∷ rs)
    → (not (get_prev_alloc m here == 0) ≡ p)
      × (not (get_alloc m (hdrp (next_blkp m here)) == 0) ≡ first_used rs)
neighbours m here n p rs ((a, s, f), t) =
    let own_bit : get_prev_alloc m here ≡ 2 * bit p = omega (arith, a, s, bit_bound p) in
    let size : get_size m (here - 4) ≡ n = omega (arith, a, s, bit_bound p) in
    let next_bit : get_alloc m (hdrp (next_blkp m here)) ≡ bit (first_used rs) =
      ap (λ x. bit0 (get m (here + x - 4))) size ∙ first_bit m (here + n) false rs t in
    (
      ap (λ x. not (x == 0)) own_bit ∙ not-double p,
      ap (λ x. not (x == 0)) next_bit ∙ not-bit (first_used rs),
    )

-- Blocks of the same size can take each other's place in a row.
pub Sizes-replace :
    (ls : List Block) (b c : Block) (rs : List Block)
    → b.size ≡ c.size
    → Sizes (ls ++ b ∷ rs)
    → Sizes (ls ++ c ∷ rs)
Sizes-replace [] b c rs e h = (omega (arith, e, h.0), h.1)
Sizes-replace (a ∷ ls) b c rs e h = (h.0, Sizes-replace ls b c rs e h.1)

pub RowWord-replace :
    (bp : ℕ) (ls : List Block) (b c : Block) (rs : List Block) (w : ℕ)
    → b.size ≡ c.size
    → RowWord bp (ls ++ b ∷ rs) w
    → RowWord bp (ls ++ c ∷ rs) w
RowWord-replace bp [] b c rs w e (inl r) = inl r
RowWord-replace bp [] b c rs w e (inr (inl r)) = inr (inl (omega (arith, r, e)))
RowWord-replace bp [] b c rs w e (inr (inr r)) = inr (inr (subst (λ t. RowWord (bp + t) rs w) e r))
RowWord-replace bp (a ∷ ls) b c rs w e (inl r) = inl r
RowWord-replace bp (a ∷ ls) b c rs w e (inr (inl r)) = inr (inl r)
RowWord-replace bp (a ∷ ls) b c rs w e (inr (inr r)) =
    inr (inr (RowWord-replace (bp + a.size) ls b c rs w e r))
