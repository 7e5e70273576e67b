-- ===== src/Seg/Coalesce/Prev.antt =====
-- Case 3 of coalesce: the previous block is free. It is taken out of its list, and the merged block
-- is listed in its place.
use mar_2015_dynamic_storage.Base.{
  ℕ, ◌+◌, ◌-◌, ◌*◌, ◌/◌, ◌^◌, ◌≤◌, ◌<◌, ◌≡◌, inl, inr, List, ◌∷◌, ◌++◌, arith, subst, ap, ◌∙◌,
}
use mar_2015_dynamic_storage.Links.Chain.{Clear}
use mar_2015_dynamic_storage.Machine.Memory.{Mem, Apart, get, put, get-put-Apart, get-put_self}
use mar_2015_dynamic_storage.Blocks.{get_size, hdrp, put_hd}
use mar_2015_dynamic_storage.Seg.{freelist_insert, freelist_delete, coalesce_prev}
use mar_2015_dynamic_storage.Seg.Sizes.{list_entry}
use mar_2015_dynamic_storage.Seg.Classes.{list_entry-lt}
use mar_2015_dynamic_storage.Seg.Lists.{
  Lists, update, IsFreeLists, IsNew, freelist_insert_lem, freelist_delete_lem,
}
use mar_2015_dynamic_storage.Seg.Frame.{
  Outside, IsSize, get_size-put_hd, get-put_hd-Apart, put-IsFreeLists, get-freelist_insert,
  get-freelist_delete,
}
use mar_2015_dynamic_storage.Machine.Word.{bit1}
use mar_2015_dynamic_storage.Seg.Place.{get-put_hd_self}
use mar_2015_dynamic_storage.Seg.Removed.{removed, Outside-removed, IsNew-removed}

-- The block `bp` of `size` bytes, and before it a free block `prev` of `prev_size` bytes with its
-- footer, which stands in the list of its size between `xs` and `ys`.
pub record PrevFree (heap_listp free_listp : ℕ) (m : Mem) (lists : Lists)
    (prev bp size prev_size : ℕ) (xs ys : List ℕ) : Type 0 where
  pub place : prev + prev_size ≡ bp
  pub header_size : get_size m (bp - 4) ≡ size
  pub prev_footer_size : get_size m (bp - 8) ≡ prev_size
  pub prev_header_size : get_size m (prev - 4) ≡ prev_size
  pub total : IsSize (size + prev_size)
  pub min_size : 16 ≤ size
  pub prev_min_size : 16 ≤ prev_size
  pub above : heap_listp < prev
  pub near : prev < heap_listp + 2 ^ 32
  pub room : 4 ≤ heap_listp
  pub listed : lists (list_entry prev_size) ≡ xs ++ prev ∷ ys
  pub header : Outside free_listp lists (bp - 4)
  pub prev_footer : Outside free_listp lists (bp - 8)
  pub prev_header : Outside free_listp lists (prev - 4)
  pub footer : Outside free_listp lists (bp + size - 8)

module _ (heap_listp free_listp : ℕ) (m : Mem) (lists : Lists) (prev bp size prev_size : ℕ)
    (xs ys : List ℕ) (l : IsFreeLists heap_listp free_listp m lists)
    (c : PrevFree heap_listp free_listp m lists prev bp size prev_size xs ys) where
  -- the list that `prev` leaves, and the lists after it has left
  abbrev pub lists_between : Lists
  lists_between = removed lists (list_entry prev_size) prev xs ys c.listed

  at_class : lists (list_entry (get_size m (hdrp prev))) ≡ xs ++ prev ∷ ys
  at_class = rw c.prev_header_size c.listed

  without : Mem
  without = freelist_delete heap_listp free_listp prev m

  without-IsFreeLists : IsFreeLists heap_listp free_listp without lists_between
  unfolding without
  without-IsFreeLists =
      let h = freelist_delete_lem heap_listp free_listp m lists prev xs ys at_class l in
      subst
        (λ t.
          IsFreeLists heap_listp free_listp (freelist_delete heap_listp free_listp prev m)
            (update lists (list_entry t) (xs ++ ys)))
        c.prev_header_size h

  get-without : (p : ℕ) → Outside free_listp lists p → get without p ≡ get m p
  unfolding without
  get-without p o = get-freelist_delete heap_listp free_listp m lists l prev xs ys p at_class o

  get_size-without : (p : ℕ) → Outside free_listp lists p → get_size without p ≡ get_size m p
  get_size-without p o = ap (λ w. w / 8 * 8) (get-without p o)

  -- the memory after the writes of the merged size
  merged : Mem
  merged = put_hd (prev - 4) (size + prev_size) (put without (bp + size - 8) (size + prev_size))

  -- the previous block's footer is read again after each of the two writes
  footer_kept :
      (get_size (put without (bp + size - 8) (size + prev_size)) (bp - 8) ≡ prev_size)
      × (get_size merged (bp - 8) ≡ prev_size)
  unfolding merged
  footer_kept =
      let total = size + prev_size in
      let k : Mem = put without (bp + size - 8) total in
      let s = c.min_size in
      let n = c.prev_min_size in
      let q = c.place in
      let a = c.above in
      let first : get k (bp - 8) ≡ get without (bp - 8) =
        get-put-Apart without (bp + size - 8) total (bp - 8) (inr (omega arith)) in
      let second : get (put_hd (prev - 4) total k) (bp - 8) ≡ get k (bp - 8) =
        get-put_hd-Apart k (prev - 4) total (bp - 8) (inl (omega arith)) in
      let base = get_size-without (bp - 8) c.prev_footer ∙ c.prev_footer_size in
      (ap (λ w. w / 8 * 8) first ∙ base, ap (λ w. w / 8 * 8) (second ∙ first) ∙ base)

  coalesce_prev-merged :
      coalesce_prev heap_listp free_listp bp m
      ≡ (prev, freelist_insert heap_listp free_listp prev merged)
  unfolding coalesce_prev merged without
  coalesce_prev-merged =
      let back : bp - prev_size ≡ prev = omega (arith, c.place) in
      rw (
        c.prev_footer_size,
        back,
        c.header_size,
        get_size-without (bp - 8) c.prev_footer ∙ c.prev_footer_size,
        back,
        get_size-without (prev - 4) c.prev_header ∙ c.prev_header_size,
        get_size-without (bp - 4) c.header ∙ c.header_size,
        footer_kept.0,
        back,
        footer_kept.1,
        back,
      )

  merged-IsFreeLists : IsFreeLists heap_listp free_listp merged lists_between
  unfolding merged
  merged-IsFreeLists =
      let total = size + prev_size in
      let out = Outside-removed lists (list_entry prev_size) prev xs ys c.listed free_listp in
      put-IsFreeLists heap_listp free_listp (put without (bp + size - 8) total) lists_between
        (put-IsFreeLists heap_listp free_listp without lists_between without-IsFreeLists
          (bp + size - 8) total (out (bp + size - 8) c.footer))
        (prev - 4) _ (out (prev - 4) c.prev_header)

  new : IsNew heap_listp free_listp lists_between prev
  new =
      IsNew-removed lists (list_entry prev_size) prev xs ys c.listed heap_listp free_listp m l
        (list_entry-lt prev_size) c.above c.near

  -- what the merged block's header and footer hold
  abbrev pub IsMerged : Mem → Type 0
  IsMerged k =
      (get_size k (prev - 4) ≡ size + prev_size)
      × (get k (prev + (size + prev_size) - 8) ≡ size + prev_size)

  merged-IsMerged : IsMerged merged
  unfolding merged
  merged-IsMerged =
      let total = size + prev_size in
      let k : Mem = put without (bp + size - 8) total in
      let s = c.min_size in
      let n = c.prev_min_size in
      let q = c.place in
      let a = c.above in
      let end : prev + total - 8 ≡ bp + size - 8 = omega arith in
      (
        get_size-put_hd k (prev - 4) total c.total,
        rw end (
            get-put_hd-Apart k (prev - 4) total (bp + size - 8) (inl (omega arith))
            ∙ omega (arith, get-put_self without (bp + size - 8) total, c.total)),
      )

  get-coalesce_prev :
      (p : ℕ)
      → Outside free_listp lists p
      → Clear p prev
      → get (coalesce_prev heap_listp free_listp bp m).1 p ≡ get merged p
  get-coalesce_prev p o a = rw coalesce_prev-merged (
      get-freelist_insert heap_listp free_listp merged lists_between merged-IsFreeLists prev p new
        (Outside-removed lists (list_entry prev_size) prev xs ys c.listed free_listp p o) a)

  -- The header keeps its second bit.
  pub header_merged :
      get (coalesce_prev heap_listp free_listp bp m).1 (prev - 4)
      ≡ size + prev_size + bit1 (get m (prev - 4))
  unfolding merged
  header_merged =
      let total = size + prev_size in
      let k : Mem = put without (bp + size - 8) total in
      let a = c.above in
      let r = c.room in
      let q = c.place in
      let s = c.min_size in
      let n = c.prev_min_size in
      let before : get k (prev - 4) ≡ get m (prev - 4) =
        get-put-Apart without (bp + size - 8) total (prev - 4) (inr (omega arith))
        ∙ get-without (prev - 4) c.prev_header in
      get-coalesce_prev (prev - 4) c.prev_header (omega arith)
      ∙ omega (arith, get-put_hd_self k (prev - 4) total (omega (arith, c.total)) c.total.1, before)

  -- Nothing else changes that no list uses.
  pub get-coalesce_prev_other :
      (p : ℕ)
      → Outside free_listp lists p
      → Clear p prev
      → Apart (prev - 4) p
      → Apart (bp + size - 8) p
      → get (coalesce_prev heap_listp free_listp bp m).1 p ≡ get m p
  unfolding merged
  get-coalesce_prev_other p o a b d =
      let total = size + prev_size in
      get-coalesce_prev p o a
      ∙ get-put_hd-Apart (put without (bp + size - 8) total) (prev - 4) total p b
      ∙ get-put-Apart without (bp + size - 8) total p d
      ∙ get-without p o

  -- the lists after Case 3
  abbrev pub lists_after : Lists
  lists_after =
      update lists_between (list_entry (size + prev_size))
        (prev ∷ lists_between (list_entry (size + prev_size)))

  prev-IsFreeLists :
      IsFreeLists heap_listp free_listp (coalesce_prev heap_listp free_listp bp m).1 lists_after
  prev-IsFreeLists =
      rw (coalesce_prev-merged, ← merged-IsMerged.0)
        (freelist_insert_lem heap_listp free_listp merged lists_between prev merged-IsFreeLists new)

  -- If the lists are well linked, the previous block has its footer and stands in the list of its
  -- size, and no list uses the headers and footers of both blocks as links: Case 3 returns the
  -- previous block, takes it out of its list, puts it in front of the list of the merged size, and
  -- leaves that size in its header and its footer.
  pub coalesce_prev_lem :
      ((coalesce_prev heap_listp free_listp bp m).0 ≡ prev)
      × IsFreeLists heap_listp free_listp (coalesce_prev heap_listp free_listp bp m).1 lists_after
      × IsMerged (coalesce_prev heap_listp free_listp bp m).1
  coalesce_prev_lem =
      let s = c.min_size in
      let n = c.prev_min_size in
      let q = c.place in
      let a = c.above in
      let r = c.room in
      let end : prev + (size + prev_size) - 8 ≡ bp + size - 8 = omega arith in
      (
        rw coalesce_prev-merged,
        prev-IsFreeLists,
        (
          ap (λ w. w / 8 * 8) (get-coalesce_prev (prev - 4) c.prev_header (omega arith))
              ∙ merged-IsMerged.0,
          get-coalesce_prev (prev + (size + prev_size) - 8) (rw end c.footer) (omega arith)
              ∙ merged-IsMerged.1,
        ),
      )
