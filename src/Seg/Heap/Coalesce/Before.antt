-- ===== src/Seg/Heap/Coalesce/Before.antt =====
-- Case 3 of coalesce on a heap: the block before is free, and both become one listed block.
use mar_2015_dynamic_storage.Base.{
  ℕ, ◌+◌, ◌-◌, ◌^◌, ◌≤◌, ◌<◌, ◌≡◌, ◌≢◌, ◌⊎◌, inl, inr, true, false, List, [], ◌∷◌, ◌++◌, All,
  All-append, arith, refl, sym, ap, subst,
}
use native.Mathlib.Decide.{ℕ_discrete}
use mar_2015_dynamic_storage.Machine.Memory.{Mem, get}
use mar_2015_dynamic_storage.Machine.Word.{}
use mar_2015_dynamic_storage.Blocks.{}
use mar_2015_dynamic_storage.Links.Chain.{Far}
use mar_2015_dynamic_storage.Seg.{coalesce, coalesce_prev}
use mar_2015_dynamic_storage.Seg.Sizes.{list_entry}
use mar_2015_dynamic_storage.Seg.Classes.{list_entry-lt}
use mar_2015_dynamic_storage.Seg.Lists.{Lists, IsNew}
use mar_2015_dynamic_storage.Seg.Frame.{Outside}
use mar_2015_dynamic_storage.Seg.Search.{Has}
use mar_2015_dynamic_storage.Seg.Removed.{removed, All-removed, IsNew-removed}
use mar_2015_dynamic_storage.Seg.Coalesce.Prev.{
  PrevFree, coalesce_prev_lem, header_merged, get-coalesce_prev_other,
}
use mar_2015_dynamic_storage.Seg.Heap.{
  Block, end_of, last_used, InPlace, Row, Tiled, FreeAt, IsMember, IsLaidOut, IsHeap, IsBlockSize,
}
use mar_2015_dynamic_storage.Seg.Heap.Words.{
  Sizes, RowWord, Row-Sizes, Row-same, Tiled-Sizes, Tiled-split, Tiled-join, Tiled-same,
  RowWord-Outside, RowWord-bounds, end_of-append, le-end_of, bit_bound,
}
use mar_2015_dynamic_storage.Seg.Heap.Free.{
  FreeAt-right, FreeAt-around, FreeAt-replace, RowWord-left, RowWord-right, Has-split, Has-removed,
  added, Has-added, Has-added_self, All-added, All-both,
}
use mar_2015_dynamic_storage.Seg.Heap.Around.{free_block, used_block}
use mar_2015_dynamic_storage.Seg.Heap.Used.{
  InPayload, InPayload-Outside, InPayload-bounds, InPayload-append, InPayload-left, InPayload-right,
}
use mar_2015_dynamic_storage.Seg.Heap.Coalesce.{first_used, neighbours}

module _ (heap_listp free_listp : ℕ) (m : Mem) (lists : Lists) (bp : ℕ) (ls rs : List Block)
    (a n : ℕ)
    (h : IsLaidOut heap_listp free_listp m lists bp
      (ls ++ free_block a ∷ free_block n ∷ rs)
      (ls ++ free_block a ∷ used_block n ∷ rs)) where
  abbrev prev : ℕ
  prev = end_of bp ls

  abbrev here : ℕ
  here = prev + a

  abbrev tiles : List Block
  tiles = ls ++ free_block a ∷ free_block n ∷ rs

  abbrev bs : List Block
  bs = ls ++ free_block a ∷ used_block n ∷ rs

  abbrev merged : List Block
  merged = ls ++ free_block (n + a) ∷ rs

  own :
      Row m bp true ls
      × InPlace m prev (last_used true ls) (free_block a)
      × InPlace m here false (free_block n)
      × Tiled m (here + n) false rs
  own =
      let (r, t) = Tiled-split m bp true ls (free_block a ∷ free_block n ∷ rs) h.tiled in
      (r, t.0, t.1.0, t.1.1)

  rs-Sizes : Sizes rs
  rs-Sizes = Tiled-Sizes m (here + n) false rs own.3

  bs-Sizes : Sizes bs
  bs-Sizes =
      All-append (λ b. IsBlockSize b.size) ls (free_block a ∷ used_block n ∷ rs)
        (Row-Sizes m bp true ls own.0) (own.1.1, (own.2.1, rs-Sizes))

  low : bp ≤ prev
  low = le-end_of bp ls

  end_tiles : end_of bp tiles ≡ end_of (here + n) rs
  unfolding end_of
  end_tiles = end_of-append bp ls (free_block a ∷ free_block n ∷ rs)

  high : here + n < heap_listp + 2 ^ 32
  high = omega (arith, h.near, end_tiles, le-end_of (here + n) rs)

  outside : (w : ℕ) → RowWord bp bs w ⊎ (w ≡ end_of bp bs - 4) → Outside free_listp lists w
  outside = RowWord-Outside heap_listp free_listp m lists bp tiles bs h bs-Sizes

  part-Outside :
      (w : ℕ) → RowWord prev (free_block a ∷ used_block n ∷ rs) w → Outside free_listp lists w
  part-Outside w r = outside w (inl (RowWord-right bp ls (free_block a ∷ used_block n ∷ rs) w r))

  prev_free : FreeAt bp bs prev a
  prev_free = FreeAt-right bp ls (free_block a ∷ used_block n ∷ rs) prev a (inl (refl, refl, refl))

  listed : (xs : List ℕ) × (ys : List ℕ) × (lists (list_entry a) ≡ xs ++ prev ∷ ys)
  listed = Has-split prev (lists (list_entry a)) (h.complete prev a prev_free)

  abbrev xs : List ℕ
  xs = listed.0

  abbrev ys : List ℕ
  ys = listed.1

  mergeable : PrevFree heap_listp free_listp m lists prev here n a xs ys
  mergeable = record {
    place = refl;
    header_size = omega (arith, own.2);
    prev_footer_size = omega (arith, own.1.2 refl, own.1.1);
    prev_header_size = omega (arith, own.1, bit_bound (last_used true ls));
    total = (omega (arith, own.1, own.2), omega (arith, h.above, low, high));
    min_size = own.2.1.1;
    prev_min_size = own.1.1.1;
    above = omega (arith, h.above, low);
    near = omega (arith, high);
    room = h.room;
    listed = listed.2;
    header = part-Outside (here - 4) (inr (inr (inl refl)));
    prev_footer = part-Outside (here - 8) (inr (inl refl));
    prev_header = part-Outside (prev - 4) (inl refl);
    footer = part-Outside (here + n - 8) (inr (inr (inr (inl refl))));
  }

  abbrev after : Mem
  after = (coalesce_prev heap_listp free_listp here m).1

  kept :
      (w : ℕ)
      → RowWord bp bs w ⊎ (w ≡ end_of bp bs - 4)
      → (w + 8 ≤ prev) ⊎ (here + n ≤ w + 4)
      → get after w ≡ get m w
  kept w r d =
      get-coalesce_prev_other heap_listp free_listp m lists prev here n a xs ys h.in_memory
        mergeable w (outside w r) (omega (arith, d, own)) (omega (arith, d, own))
        (omega (arith, d, own))

  end_bs : end_of bp bs ≡ end_of (here + n) rs
  unfolding end_of
  end_bs = end_of-append bp ls (free_block a ∷ used_block n ∷ rs)

  rest-after : Tiled after (prev + (n + a)) false rs
  rest-after =
      let end : prev + (n + a) ≡ here + n = omega arith in
      rw end (Tiled-same m after (here + n) false rs same own.3)
    where
      same :
          (w : ℕ) → RowWord (here + n) rs w ⊎ (w ≡ end_of (here + n) rs - 4) → get after w ≡ get m w
      same w (inl r) =
          kept w
            (inl
              (RowWord-right bp ls (free_block a ∷ used_block n ∷ rs) w (inr (inr (inr (inr r))))))
            (inr (omega (arith, RowWord-bounds (here + n) rs w (omega (arith, own.1)) rs-Sizes r)))
      same w (inr e) =
          kept w (inr (omega (arith, e, end_bs)))
            (inr (omega (arith, e, le-end_of (here + n) rs, own.1)))

  Tiled-after : Tiled after bp true merged
  Tiled-after =
      let (r, (p, pz, pf), o, t) = own in
      let z = mergeable.total in
      let header =
        header_merged heap_listp free_listp m lists prev here n a xs ys h.in_memory mergeable in
      let footer =
        (coalesce_prev_lem heap_listp free_listp m lists prev here n a xs ys h.in_memory
          mergeable).2.1 in
      Tiled-join after bp true ls (free_block (n + a) ∷ rs)
        (Row-same m after bp true ls
          (λ w q. kept w (inl (RowWord-left bp ls (free_block a ∷ used_block n ∷ rs) w q)) (
            inl
              (RowWord-bounds bp ls w (omega (arith, h.room, h.above)) (Row-Sizes m bp true ls r)
                q).1))
          r)
        (
          (
            omega (arith, header, p, pz, bit_bound (last_used true ls)),
            (z.0, omega (arith, pz), z.1),
            λ u. footer,
          ),
          rest-after,
        )

  abbrev between : Lists
  between = removed lists (list_entry a) prev xs ys listed.2

  abbrev lists_after : Lists
  lists_after = added between (list_entry (n + a)) prev

  fresh : IsNew heap_listp free_listp between prev
  fresh =
      IsNew-removed lists (list_entry a) prev xs ys listed.2 heap_listp free_listp m h.in_memory
        (list_entry-lt a) mergeable.above mergeable.near

  merged_free : FreeAt bp merged prev (n + a)
  merged_free = FreeAt-right bp ls (free_block (n + a) ∷ rs) prev (n + a) (inl (refl, refl, refl))

  -- the free blocks but the two are those of the row before
  split_free : (y s : ℕ) → y ≢ prev → FreeAt bp bs y s → FreeAt bp merged y s
  unfolding end_of
  split_free y s ne =
      FreeAt-replace bp ls (free_block a ∷ used_block n ∷ []) (free_block (n + a) ∷ []) rs y s
        (omega arith) not_there
    where
      not_there : ¬ (FreeAt prev (free_block a ∷ used_block n ∷ []) y s)
      not_there (inl e) = ne e.0
      not_there (inr (inl e)) = cc
      not_there (inr (inr f)) = f

  join_free : (y s : ℕ) → y ≢ prev → FreeAt bp merged y s → FreeAt bp bs y s
  unfolding end_of
  join_free y s ne =
      FreeAt-replace bp ls (free_block (n + a) ∷ []) (free_block a ∷ used_block n ∷ []) rs y s
        (omega arith) not_there
    where
      not_there : ¬ (FreeAt prev (free_block (n + a) ∷ []) y s)
      not_there (inl e) = ne e.0
      not_there (inr f) = f

  members_after : (i : ℕ) → i < 24 → All (IsMember bp merged i) (lists_after i)
  members_after i k =
      All-added between (list_entry (n + a)) prev (IsMember bp merged) i
        (All-both (IsMember bp bs i) (Far prev) (IsMember bp merged i) (between i)
          (λ y c f. (c.0, split_free y c.0 (λ q. omega (arith, q, f)) c.1, c.2))
          (All-removed lists (list_entry a) prev xs ys listed.2 (IsMember bp bs i) i
            (h.members i k))
          (fresh.far i k))
        (n + a, merged_free, refl)

  complete_after : (y s : ℕ) → FreeAt bp merged y s → Has y (lists_after (list_entry s))
  complete_after y s f = elim (ℕ_discrete y prev) [
    | yes p ↦
        let q : s ≡ n + a = omega (
          arith,
          FreeAt-around bp ls (free_block (n + a)) rs y s
              (Tiled-Sizes after bp true merged Tiled-after) f,
          p,
          own.1,
        ) in
        subst (λ t. Has t (lists_after (list_entry s))) (sym p)
          (subst (λ t. Has prev (lists_after (list_entry t))) (sym q)
            (Has-added_self between (list_entry (n + a)) prev))
    | no p ↦ Has-added between (list_entry (n + a)) prev (list_entry s) y (
        Has-removed lists (list_entry a) prev xs ys listed.2 (list_entry s) y p
          (h.complete y s (join_free y s p f)))
  ]

  merged-IsHeap : IsHeap heap_listp free_listp after lists_after bp merged
  unfolding end_of
  merged-IsHeap = record {
    tiled = Tiled-after;
    in_memory =
        (coalesce_prev_lem heap_listp free_listp m lists prev here n a xs ys h.in_memory
          mergeable).1;
    members = members_after;
    complete = complete_after;
    room = h.room;
    heads = h.heads;
    above = h.above;
    near =
        let end : prev + (n + a) ≡ here + n = omega arith in
        omega (
          arith,
          h.near,
          end_tiles,
          end_of-append bp ls (free_block (n + a) ∷ rs),
          ap (λ t. end_of t rs) end,
        );
    aligned = h.aligned;
  }

  -- x
  pub coalesce-IsHeap_before :
      first_used rs ≡ true
      → ((coalesce heap_listp free_listp here m).0 ≡ prev)
        × ((after : Lists) × IsHeap heap_listp free_listp
              (coalesce heap_listp free_listp here m).1
              after
              bp
              merged)
  unfolding coalesce
  coalesce-IsHeap_before q =
      let (c, d) = neighbours m here n false rs (own.2, own.3) in
      let first =
        (coalesce_prev_lem heap_listp free_listp m lists prev here n a xs ys h.in_memory
          mergeable).0 in
      rw (c, d, q) (first, (lists_after, merged-IsHeap))

  payload :
      (w : ℕ) → InPayload bp tiles w → InPayload bp bs w × ((w + 8 ≤ prev) ⊎ (here + n ≤ w + 4))
  payload w u = elim (InPayload-append bp ls (free_block a ∷ free_block n ∷ rs) w u) [
    | inl v ↦ (
      InPayload-left bp ls (free_block a ∷ used_block n ∷ rs) w v,
      inl (InPayload-bounds bp ls w v).1,
    )
    | inr (inl v) ↦ cc
    | inr (inr (inl v)) ↦ cc
    | inr (inr (inr v)) ↦ (
      InPayload-right bp ls (free_block a ∷ used_block n ∷ rs) w (inr (inr v)),
      inr (omega (arith, InPayload-bounds (here + n) rs w v)),
    )
  ]

  -- Under the same conditions the payloads of used blocks stay as they are.
  pub get-coalesce_before :
      first_used rs ≡ true
      → (w : ℕ) → InPayload bp tiles w
      → get (coalesce heap_listp free_listp here m).1 w ≡ get m w
  unfolding coalesce
  get-coalesce_before q w u =
      let (c, d) = neighbours m here n false rs (own.2, own.3) in
      let (v, far) = payload w u in
      rw (c, d, q)
        (get-coalesce_prev_other heap_listp free_listp m lists prev here n a xs ys h.in_memory
          mergeable w (InPayload-Outside heap_listp free_listp m lists bp tiles bs h bs-Sizes w v)
          (omega (arith, far, own)) (omega (arith, far, own)) (omega (arith, far, own)))
