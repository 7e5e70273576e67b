-- ===== src/Seg/Place/Split.antt =====
-- place where at least 16 bytes of the free block are left over.
use mar_2015_dynamic_storage.Base.{
  ℕ, ◌+◌, ◌-◌, ◌%◌, ◌^◌, ◌≤◌, ◌<◌, ◌≡◌, inl, inr, List, ◌∷◌, arith, leb, true, subst, ◌∙◌,
}
use mar_2015_dynamic_storage.Machine.Memory.{Mem, Apart, get, put, get-put-Apart, get-put_self}
use mar_2015_dynamic_storage.Blocks.{get_size, put_hd}
use mar_2015_dynamic_storage.Machine.Word.{bit1, set_bit0, set_bit1, clear_bit1}
use mar_2015_dynamic_storage.Links.Chain.{Clear, Far}
use mar_2015_dynamic_storage.Seg.{freelist_insert, place}
use mar_2015_dynamic_storage.Seg.Sizes.{list_entry}
use mar_2015_dynamic_storage.Seg.Lists.{Lists, update, IsFreeLists, IsNew, freelist_insert_lem}
use mar_2015_dynamic_storage.Seg.Frame.{
  Outside, get-put_hd-Apart, put-IsFreeLists, get-freelist_insert,
}
use mar_2015_dynamic_storage.Seg.Removed.{All-removed}
use mar_2015_dynamic_storage.Seg.Place.{
  Placed, lists_between, without, without-IsFreeLists, get-without, between-Outside,
  get-put_hd_self,
}

-- What is left over has at least 16 bytes, and no list uses its links, its header or its footer.
pub record Rest (heap_listp free_listp : ℕ) (lists : Lists) (bp asize rest : ℕ) : Type 0 where
  pub min_size : 16 ≤ rest
  pub new : IsNew heap_listp free_listp lists (bp + asize)
  pub header : Outside free_listp lists (bp + asize - 4)
  pub footer : Outside free_listp lists (bp + (asize + rest) - 8)

module _ (heap_listp free_listp : ℕ) (m : Mem) (lists : Lists) (bp asize rest : ℕ) (xs ys : List ℕ)
    (l : IsFreeLists heap_listp free_listp m lists)
    (c : Placed heap_listp free_listp m lists bp asize (asize + rest) xs ys)
    (r : Rest heap_listp free_listp lists bp asize rest) where
  abbrev between : Lists
  between = lists_between heap_listp free_listp m lists bp asize (asize + rest) xs ys l c

  abbrev base : Mem
  base = without heap_listp free_listp m lists bp asize (asize + rest) xs ys l c

  bounds :
      (asize % 8 ≡ 0)
      × (rest % 8 ≡ 0)
      × (asize + rest < 2 ^ 32)
      × (16 ≤ asize)
      × (16 ≤ rest)
      × (4 ≤ heap_listp)
      × (heap_listp < bp)
  bounds =
      let (s, t) = c.sizes in
      (t.0, omega (arith, s.0, t.0), s.1, c.min_size, r.min_size, c.above.0, c.above.1)

  -- the header of the allocated part; the second bit of the header after it
  front : Mem
  front =
      let k : Mem = put_hd (bp - 4) (set_bit0 asize) base in
      put k (bp + asize - 4) (set_bit1 (get k (bp + asize - 4)))

  -- the header and the footer of the rest
  back : Mem
  back = put (put_hd (bp + asize - 4) rest front) (bp + (asize + rest) - 8) rest

  -- the second bit of the next block's header
  parted : Mem
  parted = put back (bp + (asize + rest) - 4) (clear_bit1 (get back (bp + (asize + rest) - 4)))

  front_words :
      (get front (bp - 4) ≡ asize + 1 + bit1 (get m (bp - 4)))
      × (bit1 (get front (bp + asize - 4)) ≡ 2)
  unfolding front
  front_words =
      let b = bounds in
      let k : Mem = put_hd (bp - 4) (set_bit0 asize) base in
      let p = bp + asize - 4 in
      (
        get-put-Apart k p (set_bit1 (get k p)) (bp - 4) (inr (omega (arith, b)))
            ∙ omega (
              arith,
              b,
              get-put_hd_self base (bp - 4) (set_bit0 asize) (omega (arith, b)) (omega (arith, b)),
              get-without heap_listp free_listp m lists bp asize (asize + rest) xs ys l c (bp - 4)
                  c.header,
            ),
        omega (arith, get-put_self k p (set_bit1 (get k p))),
      )

  last_front : get front (bp + (asize + rest) - 4) ≡ get m (bp + (asize + rest) - 4)
  unfolding front
  last_front =
      let b = bounds in
      let q = bp + (asize + rest) - 4 in
      let k : Mem = put_hd (bp - 4) (set_bit0 asize) base in
      get-put-Apart k (bp + asize - 4) (set_bit1 (get k (bp + asize - 4))) q
        (inl (omega (arith, b)))
      ∙ get-put_hd-Apart base (bp - 4) (set_bit0 asize) q (inl (omega (arith, b)))
      ∙ get-without heap_listp free_listp m lists bp asize (asize + rest) xs ys l c q c.next_header

  back_words :
      (get back (bp - 4) ≡ asize + 1 + bit1 (get m (bp - 4)))
      × (get back (bp + asize - 4) ≡ rest + 2)
      × (get back (bp + (asize + rest) - 8) ≡ rest)
      × (get back (bp + (asize + rest) - 4) ≡ get m (bp + (asize + rest) - 4))
  unfolding back
  back_words =
      let b = bounds in
      let p = bp + asize - 4 in
      let foot = bp + (asize + rest) - 8 in
      let last = bp + (asize + rest) - 4 in
      let k : Mem = put_hd p rest front in
      let w = front_words in
      (
        get-put-Apart k foot rest (bp - 4) (inr (omega (arith, b)))
            ∙ get-put_hd-Apart front p rest (bp - 4) (inr (omega (arith, b)))
            ∙ w.0,
        get-put-Apart k foot rest p (inr (omega (arith, b)))
            ∙ omega
                (arith, w.1, get-put_hd_self front p rest (omega (arith, b)) (omega (arith, b))),
        omega (arith, b, get-put_self k foot rest),
        get-put-Apart k foot rest last (inl (omega (arith, b)))
            ∙ get-put_hd-Apart front p rest last (inl (omega (arith, b)))
            ∙ last_front,
      )

  -- the four words after the split
  abbrev pub IsSplit : Mem → Type 0
  IsSplit k =
      (get k (bp - 4) ≡ asize + 1 + bit1 (get m (bp - 4)))
      × (get k (bp + asize - 4) ≡ rest + 2)
      × (get k (bp + (asize + rest) - 8) ≡ rest)
      × (get k (bp + (asize + rest) - 4) ≡ clear_bit1 (get m (bp + (asize + rest) - 4)))

  parted-IsSplit : IsSplit parted
  unfolding parted
  parted-IsSplit =
      let b = bounds in
      let n = c.next_word in
      let w = back_words in
      let q = bp + (asize + rest) - 4 in
      let v = clear_bit1 (get back q) in
      (
        get-put-Apart back q v (bp - 4) (inr (omega (arith, b))) ∙ w.0,
        get-put-Apart back q v (bp + asize - 4) (inr (omega (arith, b))) ∙ w.1,
        get-put-Apart back q v (bp + (asize + rest) - 8) (inr (omega (arith, b))) ∙ w.2,
        omega (arith, get-put_self back q v, w.3, n),
      )

  parted-IsFreeLists : IsFreeLists heap_listp free_listp parted between
  unfolding parted back front
  parted-IsFreeLists =
      let out = between-Outside heap_listp free_listp m lists bp asize (asize + rest) xs ys l c in
      let write = put-IsFreeLists heap_listp free_listp in
      write _ between
        (write _ between
          (write _ between
            (write _ between
              (write base between
                (without-IsFreeLists heap_listp free_listp m lists bp asize (asize + rest) xs ys l
                  c)
                (bp - 4) _ (out (bp - 4) c.header))
              (bp + asize - 4) _ (out (bp + asize - 4) r.header))
            (bp + asize - 4) _ (out (bp + asize - 4) r.header))
          (bp + (asize + rest) - 8) rest (out (bp + (asize + rest) - 8) r.footer))
        (bp + (asize + rest) - 4) _ (out (bp + (asize + rest) - 4) c.next_header)

  -- the sizes that place reads again after its writes
  read_sizes :
      (get_size (put_hd (bp - 4) (set_bit0 asize) base) (bp - 4) ≡ asize)
      × (get_size front (bp - 4) ≡ asize)
      × (get_size (put_hd (bp + asize - 4) rest front) (bp + asize - 4) ≡ rest)
      × (get_size back (bp + asize - 4) ≡ rest)
  read_sizes =
      let b = bounds in
      let w = front_words in
      let p = bp + asize - 4 in
      (
        omega (
          arith,
          b,
          get-put_hd_self base (bp - 4) (set_bit0 asize) (omega (arith, b)) (omega (arith, b)),
        ),
        omega (arith, b, w.0),
        omega (arith, b, get-put_hd_self front p rest (omega (arith, b)) (omega (arith, b))),
        omega (arith, b, back_words.1),
      )

  place-parted :
      place heap_listp free_listp bp asize m
      ≡ freelist_insert heap_listp free_listp (bp + asize) parted
  unfolding place parted back front without
  place-parted =
      let b = bounds in
      let enough : leb 16 ((asize + rest + 2 ^ 64 - asize) % 2 ^ 64) ≡ true = ground (arith, b) in
      let left : (asize + rest + 2 ^ 64 - asize) % 2 ^ 64 ≡ rest = omega (arith, b) in
      let (s₁, s₂, s₃, s₄) = read_sizes in
      let end : bp + asize + rest ≡ bp + (asize + rest) = omega arith in
      rw (c.header_size, enough, left, s₁, s₂, s₃, end, s₄, end)

  new : IsNew heap_listp free_listp between (bp + asize)
  new = record {
    above = r.new.above;
    near = r.new.near;
    clear = r.new.clear;
    far = λ i h.
        All-removed lists (list_entry (asize + rest)) bp xs ys c.listed (Far (bp + asize)) i
          (r.new.far i h);
  }

  -- the lists after the split
  abbrev pub lists_after : Lists
  lists_after = update between (list_entry rest) ((bp + asize) ∷ between (list_entry rest))

  -- If the lists are well linked, the block stands in the list of its size, no list uses the headers
  -- and the footer of the parts as links, and at least 16 bytes are left over: place gives the block
  -- the allocated size and bit and keeps the second bit of its header; the rest becomes a free block
  -- whose header says that the block before it is allocated, with its size in its footer; the next
  -- header's second bit is cleared; and the rest stands in front of the list of its size, where the
  -- block has left its own.
  pub place-IsSplit :
      IsFreeLists heap_listp free_listp (place heap_listp free_listp bp asize m) lists_after
      × IsSplit (place heap_listp free_listp bp asize m)
  place-IsSplit =
      let b = bounds in
      let w = parted-IsSplit in
      let size : get_size parted (bp + asize - 4) ≡ rest = omega (arith, b, w.1) in
      let out = between-Outside heap_listp free_listp m lists bp asize (asize + rest) xs ys l c in
      let kept = λ (p : ℕ) (o : Outside free_listp lists p) (a : Clear p (bp + asize)).
        get-freelist_insert heap_listp free_listp parted between parted-IsFreeLists (bp + asize) p
          new (out p o) a in
      rw place-parted (
        subst
            (λ t.
              IsFreeLists heap_listp free_listp
                (freelist_insert heap_listp free_listp (bp + asize) parted)
                (update between (list_entry t) ((bp + asize) ∷ between (list_entry t))))
            size
            (freelist_insert_lem heap_listp free_listp parted between (bp + asize)
              parted-IsFreeLists new),
        (
          kept (bp - 4) c.header (omega (arith, b)) ∙ w.0,
          kept (bp + asize - 4) r.header (omega (arith, b)) ∙ w.1,
          kept (bp + (asize + rest) - 8) r.footer (omega (arith, b)) ∙ w.2,
          kept (bp + (asize + rest) - 4) c.next_header (omega (arith, b)) ∙ w.3,
        ),
      )

  -- Nothing else changes that no list uses.
  pub get-place_split :
      (p : ℕ)
      → Outside free_listp lists p
      → Clear p (bp + asize)
      → Apart (bp - 4) p
      → Apart (bp + asize - 4) p
      → Apart (bp + (asize + rest) - 8) p
      → Apart (bp + (asize + rest) - 4) p
      → get (place heap_listp free_listp bp asize m) p ≡ get m p
  unfolding parted back front
  get-place_split p o c' a₁ a₂ a₃ a₄ =
      let out = between-Outside heap_listp free_listp m lists bp asize (asize + rest) xs ys l c in
      let k : Mem = put_hd (bp - 4) (set_bit0 asize) base in
      rw place-parted (
        get-freelist_insert heap_listp free_listp parted between parted-IsFreeLists (bp + asize) p
          new (out p o) c'
        ∙ get-put-Apart back (bp + (asize + rest) - 4)
            (clear_bit1 (get back (bp + (asize + rest) - 4))) p a₄
        ∙ get-put-Apart (put_hd (bp + asize - 4) rest front) (bp + (asize + rest) - 8) rest p a₃
        ∙ get-put_hd-Apart front (bp + asize - 4) rest p a₂
        ∙ get-put-Apart k (bp + asize - 4) (set_bit1 (get k (bp + asize - 4))) p a₂
        ∙ get-put_hd-Apart base (bp - 4) (set_bit0 asize) p a₁
        ∙ get-without heap_listp free_listp m lists bp asize (asize + rest) xs ys l c p o)
