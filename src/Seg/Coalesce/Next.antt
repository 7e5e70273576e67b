-- ===== src/Seg/Coalesce/Next.antt =====
-- Case 2 of coalesce: the next block is free. The merged block is listed, and the next block is not
-- taken out of its list.
use mar_2015_dynamic_storage.Base.{
  ℕ, ◌+◌, ◌-◌, ◌*◌, ◌/◌, ◌≤◌, ◌<◌, ◌≡◌, refl, inl, inr, ◌∷◌, arith, subst, ap, ◌∙◌,
}
use native.Mathlib.Decide.{ℕ_discrete}
use mar_2015_dynamic_storage.Machine.Memory.{Mem, get, put, get-put-Apart, get-put_self}
use mar_2015_dynamic_storage.Blocks.{get_size, put_hd}
use mar_2015_dynamic_storage.Links.Chain.{Clear}
use mar_2015_dynamic_storage.Seg.{freelist_insert, coalesce_next}
use mar_2015_dynamic_storage.Seg.Sizes.{list_entry}
use mar_2015_dynamic_storage.Seg.Lists.{Lists, update, IsFreeLists, IsNew, freelist_insert_lem}
use mar_2015_dynamic_storage.Seg.Frame.{
  Outside, IsSize, get_size-put_hd, get-put_hd-Apart, put-IsFreeLists, get-freelist_insert,
}
use mar_2015_dynamic_storage.Seg.Search.{Has}

-- The block `bp` of `size` bytes is in no list, and a block of `next_size` bytes follows.
pub record NextFree (heap_listp free_listp : ℕ) (m : Mem) (lists : Lists) (bp size next_size : ℕ)
    : Type 0 where
  pub header_size : get_size m (bp - 4) ≡ size
  pub next_header_size : get_size m (bp + size - 4) ≡ next_size
  pub total : IsSize (size + next_size)
  pub min_size : 16 ≤ size
  pub next_min_size : 16 ≤ next_size
  pub new : IsNew heap_listp free_listp lists bp
  pub header : Outside free_listp lists (bp - 4)
  pub footer : Outside free_listp lists (bp + (size + next_size) - 8)
  pub room : 4 ≤ heap_listp

module _ (heap_listp free_listp : ℕ) (m : Mem) (lists : Lists) (bp size next_size : ℕ)
    (l : IsFreeLists heap_listp free_listp m lists)
    (c : NextFree heap_listp free_listp m lists bp size next_size) where
  -- the memory after the two writes of the merged size
  merged : Mem
  merged =
      put (put_hd (bp - 4) (size + next_size) m) (bp + (size + next_size) - 8) (size + next_size)

  coalesce_next-merged :
      coalesce_next heap_listp free_listp bp m
      ≡ (bp, freelist_insert heap_listp free_listp bp merged)
  unfolding coalesce_next merged
  coalesce_next-merged =
      rw (c.header_size, c.next_header_size, get_size-put_hd m (bp - 4) (size + next_size) c.total)

  merged-IsFreeLists : IsFreeLists heap_listp free_listp merged lists
  unfolding merged
  merged-IsFreeLists =
      let total = size + next_size in
      put-IsFreeLists heap_listp free_listp (put_hd (bp - 4) total m) lists
        (put-IsFreeLists heap_listp free_listp m lists l (bp - 4) _ c.header) (bp + total - 8) total
        c.footer

  merged_sizes :
      (get_size merged (bp - 4) ≡ size + next_size)
      × (get merged (bp + (size + next_size) - 8) ≡ size + next_size)
  unfolding merged
  merged_sizes =
      let total = size + next_size in
      let k = put_hd (bp - 4) total m in
      let a = c.new.above in
      (
        ap (λ w. w / 8 * 8) (get-put-Apart k (bp + total - 8) total (bp - 4) (inr (omega arith)))
            ∙ get_size-put_hd m (bp - 4) total c.total,
        omega (arith, get-put_self k (bp + total - 8) total, c.total),
      )

  -- the lists after Case 2
  abbrev pub lists_after : Lists
  lists_after =
      update lists (list_entry (size + next_size)) (bp ∷ lists (list_entry (size + next_size)))

  next-IsFreeLists :
      IsFreeLists heap_listp free_listp (coalesce_next heap_listp free_listp bp m).1 lists_after
  next-IsFreeLists =
      rw (coalesce_next-merged, ← merged_sizes.0)
        (freelist_insert_lem heap_listp free_listp merged lists bp merged-IsFreeLists c.new)

  -- A word outside the lists and away from the links of `bp` and from the two words written.
  get-coalesce_next :
      (p : ℕ)
      → Outside free_listp lists p
      → Clear p bp
      → get (coalesce_next heap_listp free_listp bp m).1 p ≡ get merged p
  get-coalesce_next p o a =
      rw coalesce_next-merged
        (get-freelist_insert heap_listp free_listp merged lists merged-IsFreeLists bp p c.new o a)

  -- the merged block after Case 2: its header, its footer, and that it is listed
  abbrev pub IsMerged : Mem → Type 0
  IsMerged k =
      (get_size k (bp - 4) ≡ size + next_size)
      × (get k (bp + (size + next_size) - 8) ≡ size + next_size)
      × Has bp (lists_after (list_entry (size + next_size)))

  next-IsMerged : IsMerged (coalesce_next heap_listp free_listp bp m).1
  next-IsMerged =
      let t = list_entry (size + next_size) in
      let a = c.new.above in
      let s = c.min_size in
      let r = c.room in
      let here : lists_after t ≡ bp ∷ lists t = ground arith in
      (
        ap (λ w. w / 8 * 8) (get-coalesce_next (bp - 4) c.header (omega arith)) ∙ merged_sizes.0,
        get-coalesce_next (bp + (size + next_size) - 8) c.footer (omega (arith, c.next_min_size))
            ∙ merged_sizes.1,
        rw here (inl refl),
      )

  Has-lists_after : (x i : ℕ) → Has x (lists i) → Has x (lists_after i)
  Has-lists_after x i h =
      let t = list_entry (size + next_size) in
      elim (ℕ_discrete i t) [
        | yes e ↦
            let here : lists_after i ≡ bp ∷ lists t = ground (arith, e) in
            rw here (inr (subst (λ j. Has x (lists j)) e h))
        | no e ↦ let same : lists_after i ≡ lists i = ground (arith, e) in rw same h
      ]

  -- If the lists are well linked, the block `bp` is in none of them, and no list uses the header of
  -- `bp` or the footer of the merged block as a link: Case 2 returns `bp`, keeps the lists well
  -- linked, and puts `bp` in front of the list of the merged size, which its header and footer then
  -- hold.
  pub coalesce_next_lem :
      ((coalesce_next heap_listp free_listp bp m).0 ≡ bp)
      × IsFreeLists heap_listp free_listp (coalesce_next heap_listp free_listp bp m).1 lists_after
      × IsMerged (coalesce_next heap_listp free_listp bp m).1
  coalesce_next_lem = (rw coalesce_next-merged, next-IsFreeLists, next-IsMerged)

  -- If the lists are well linked and hold the next block but not `bp`, both blocks have at least 16
  -- bytes and together a block size, and no list uses the header of either block or the footer of the
  -- merged block as a link: Case 2 leaves the next block in that list with its header: two blocks are
  -- then listed of which one lies inside the other.
  pub coalesce_next-overlap :
      (i : ℕ)
      → Has (bp + size) (lists i)
      → Outside free_listp lists (bp + size - 4)
      → let k = (coalesce_next heap_listp free_listp bp m).1 in
        IsFreeLists heap_listp free_listp k lists_after
        × Has (bp + size) (lists_after i)
        × Has bp (lists_after (list_entry (size + next_size)))
        × (get_size k (bp + size - 4) ≡ next_size)
        × (bp < bp + size)
        × (bp + size + get_size k (bp + size - 4) ≡ bp + get_size k (bp - 4))
  unfolding merged
  coalesce_next-overlap i h o =
      let total = size + next_size in
      let p = bp + size - 4 in
      let a = c.new.above in
      let r = c.room in
      let s = c.min_size in
      let n = c.next_min_size in
      let kept : get (coalesce_next heap_listp free_listp bp m).1 p ≡ get m p =
        get-coalesce_next p o (omega arith)
        ∙ get-put-Apart (put_hd (bp - 4) total m) (bp + total - 8) total p (inr (omega arith))
        ∙ get-put_hd-Apart m (bp - 4) total p (inl (omega arith)) in
      let size_kept = ap (λ w. w / 8 * 8) kept ∙ c.next_header_size in
      let (own, foot, listed) = next-IsMerged in
      (
        next-IsFreeLists,
        Has-lists_after (bp + size) i h,
        listed,
        size_kept,
        omega arith,
        omega (arith, size_kept, own),
      )
