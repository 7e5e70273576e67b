-- ===== src/Seg/Place.antt =====
-- place: a free block is taken out of its list and marked as allocated; if at least 16 bytes are left
-- over, they become a free block of their own, which is listed.
pub mod Split
use mar_2015_dynamic_storage.Base.{
  ℕ, ◌+◌, ◌-◌, ◌*◌, ◌/◌, ◌%◌, ◌^◌, ◌≤◌, ◌<◌, ◌≡◌, ◌⊎◌, inl, inr, List, [], ◌∷◌, ◌++◌, arith, All,
  leb, true, false, if◌then◌else◌, subst, sym, ap, ◌∙◌, ◌==◌,
}
use mar_2015_dynamic_storage.Machine.Memory.{Mem, Apart, get, put, get-put-Apart, get-put_self}
use mar_2015_dynamic_storage.Blocks.{
  get_size, hdrp, ftrp, next_blkp, pack, put_hd, prev_alloc, prev_unalloc,
}
use mar_2015_dynamic_storage.Machine.Word.{bit1, set_bit0, set_bit1, clear_bit1}
use mar_2015_dynamic_storage.Links.Chain.{Clear, Far}
use mar_2015_dynamic_storage.Seg.{freelist_insert, freelist_delete, place}
use mar_2015_dynamic_storage.Seg.Sizes.{list_entry}
use mar_2015_dynamic_storage.Seg.Lists.{
  Lists, update, IsFreeLists, IsNew, freelist_insert_lem, freelist_delete_lem,
}
use mar_2015_dynamic_storage.Seg.Frame.{
  Outside, IsSize, get-put_hd-Apart, put-IsFreeLists, get-freelist_insert, get-freelist_delete,
}
use mar_2015_dynamic_storage.Seg.Removed.{removed, Outside-removed, All-removed}

-- PUT_HD keeps the second bit.
pub get-put_hd_self :
    (m : Mem) (p v : ℕ) → v % 4 < 2 → v < 2 ^ 32 → get (put_hd p v m) p ≡ v + bit1 (get m p)
get-put_hd_self m p v h k = ground (arith, get-put_self m p v, get-put_self m p (set_bit1 v))

-- The free block `bp` of `csize` bytes stands in the list of its size between `xs` and `ys`; `asize`
-- bytes of it are to be allocated.
pub record Placed (heap_listp free_listp : ℕ) (m : Mem) (lists : Lists) (bp asize csize : ℕ)
    (xs ys : List ℕ) : Type 0 where
  pub header_size : get_size m (bp - 4) ≡ csize
  pub sizes : IsSize csize × IsSize asize
  pub min_size : 16 ≤ asize
  pub fits : asize ≤ csize
  pub above : 4 ≤ heap_listp × heap_listp < bp
  pub listed : lists (list_entry csize) ≡ xs ++ bp ∷ ys
  pub header : Outside free_listp lists (bp - 4)
  pub next_header : Outside free_listp lists (bp + csize - 4)
  pub next_word : get m (bp + csize - 4) < 2 ^ 32

module _ (heap_listp free_listp : ℕ) (m : Mem) (lists : Lists) (bp asize csize : ℕ) (xs ys : List ℕ)
    (l : IsFreeLists heap_listp free_listp m lists)
    (c : Placed heap_listp free_listp m lists bp asize csize xs ys) where
  -- the lists without `bp`
  abbrev pub lists_between : Lists
  lists_between = removed lists (list_entry csize) bp xs ys c.listed

  pub at_class : lists (list_entry (get_size m (hdrp bp))) ≡ xs ++ bp ∷ ys
  at_class = rw c.header_size c.listed

  unfoldable pub without : Mem
  without = freelist_delete heap_listp free_listp bp m

  pub without-IsFreeLists : IsFreeLists heap_listp free_listp without lists_between
  unfolding without
  without-IsFreeLists =
      subst
        (λ t.
          IsFreeLists heap_listp free_listp (freelist_delete heap_listp free_listp bp m)
            (update lists (list_entry t) (xs ++ ys)))
        c.header_size (freelist_delete_lem heap_listp free_listp m lists bp xs ys at_class l)

  pub get-without : (p : ℕ) → Outside free_listp lists p → get without p ≡ get m p
  unfolding without
  get-without p o = get-freelist_delete heap_listp free_listp m lists l bp xs ys p at_class o

  pub between-Outside : (p : ℕ) → Outside free_listp lists p → Outside free_listp lists_between p
  between-Outside p o = Outside-removed lists (list_entry csize) bp xs ys c.listed free_listp p o

  -- the whole block: its header and the next one
  whole : Mem
  whole =
      let k : Mem = put_hd (bp - 4) (set_bit0 csize) without in
      put k (bp + csize - 4) (set_bit1 (get k (bp + csize - 4)))

  place-whole : csize < asize + 16 → place heap_listp free_listp bp asize m ≡ whole
  unfolding place whole without
  place-whole h =
      let (s, t) = c.sizes in
      let few : leb 16 ((csize + 2 ^ 64 - asize) % 2 ^ 64) ≡ false = ground (arith, c.fits) in
      let at : get_size
            (put_hd (bp - 4) (set_bit0 csize) (freelist_delete heap_listp free_listp bp m)) (bp - 4)
          ≡ csize =
        omega (
          arith,
          get-put_hd_self (freelist_delete heap_listp free_listp bp m) (bp - 4) (set_bit0 csize)
              (omega arith) (omega arith),
        ) in
      rw (c.header_size, few, at)

  whole-IsFreeLists : IsFreeLists heap_listp free_listp whole lists_between
  unfolding whole
  whole-IsFreeLists =
      put-IsFreeLists heap_listp free_listp _ lists_between
        (put-IsFreeLists heap_listp free_listp without lists_between without-IsFreeLists (bp - 4) _
          (between-Outside (bp - 4) c.header))
        (bp + csize - 4) _ (between-Outside (bp + csize - 4) c.next_header)

  -- the two headers: the second bit of the first one is kept
  abbrev pub IsWhole : Mem → Type 0
  IsWhole k =
      (get k (bp - 4) ≡ csize + 1 + bit1 (get m (bp - 4)))
      × (get k (bp + csize - 4) ≡ set_bit1 (get m (bp + csize - 4)))

  whole-IsWhole : IsWhole whole
  unfolding whole
  whole-IsWhole =
      let (s, t) = c.sizes in
      let fit = c.fits in
      let n = c.min_size in
      let a = c.above in
      let w = c.next_word in
      let next = bp + csize - 4 in
      let k : Mem = put_hd (bp - 4) (set_bit0 csize) without in
      let next_kept : get k next ≡ get m next =
        get-put_hd-Apart without (bp - 4) (set_bit0 csize) next (inl (omega arith))
        ∙ get-without next c.next_header in
      (
        get-put-Apart k next (set_bit1 (get k next)) (bp - 4) (inr (omega arith))
            ∙ omega (
              arith,
              get-put_hd_self without (bp - 4) (set_bit0 csize) (omega arith) (omega arith),
              get-without (bp - 4) c.header,
            ),
        omega (arith, get-put_self k next (set_bit1 (get k next)), next_kept),
      )

  -- If the lists are well linked, the block stands in the list of its size, no list uses its header
  -- or the next one as a link, and fewer than 16 bytes would be left over: place allocates the whole
  -- block: the block leaves its list, its header gets the allocated bit and keeps its second bit, and
  -- the next header's second bit is set.
  pub place-IsWhole :
      csize < asize + 16
      → IsFreeLists heap_listp free_listp (place heap_listp free_listp bp asize m) lists_between
        × IsWhole (place heap_listp free_listp bp asize m)
  place-IsWhole h = rw (place-whole h) (whole-IsFreeLists, whole-IsWhole)

  -- Nothing else changes that no list uses.
  pub get-place_whole :
      (p : ℕ)
      → csize < asize + 16
      → Outside free_listp lists p
      → Apart (bp - 4) p
      → Apart (bp + csize - 4) p
      → get (place heap_listp free_listp bp asize m) p ≡ get m p
  unfolding whole
  get-place_whole p h o a b =
      let k : Mem = put_hd (bp - 4) (set_bit0 csize) without in
      rw (place-whole h) (
        get-put-Apart k (bp + csize - 4) (set_bit1 (get k (bp + csize - 4))) p b
        ∙ get-put_hd-Apart without (bp - 4) (set_bit0 csize) p a
        ∙ get-without p o)
