-- ===== src/Seg/Heap/Coalesce/Alone.antt =====
-- Case 1 of coalesce on a heap: both neighbours are used, and the block is put into its list.
use mar_2015_dynamic_storage.Base.{
  ℕ, ◌+◌, ◌-◌, ◌≤◌, ◌<◌, ◌≡◌, ◌⊎◌, inl, inr, true, List, [], ◌∷◌, ◌++◌, All, All-map, arith, refl,
  sym, ap, ◌∙◌, subst,
}
use native.Mathlib.Decide.{ℕ_discrete}
use mar_2015_dynamic_storage.Machine.Memory.{Mem, get}
use mar_2015_dynamic_storage.Blocks.{get_size, hdrp}
use mar_2015_dynamic_storage.Links.Chain.{Far}
use mar_2015_dynamic_storage.Seg.{coalesce, freelist_insert}
use mar_2015_dynamic_storage.Seg.Sizes.{list_entry}
use mar_2015_dynamic_storage.Seg.Lists.{Lists, update, IsFreeLists, IsNew, freelist_insert_lem}
use mar_2015_dynamic_storage.Seg.Frame.{get-freelist_insert}
use mar_2015_dynamic_storage.Seg.Search.{Has}
use mar_2015_dynamic_storage.Seg.Heap.{
  Block, end_of, last_used, Tiled, FreeAt, IsMember, IsLaidOut, IsHeap,
}
use mar_2015_dynamic_storage.Seg.Heap.Words.{
  Sizes, RowWord, Tiled-Sizes, Tiled-split, Tiled-same, RowWord-Outside, RowWord-Clear, end-Clear,
  end_of-append, le-end_of, bit_bound,
}
use mar_2015_dynamic_storage.Seg.Heap.Free.{
  FreeAt-right, FreeAt-around, FreeAt-other, added, Has-added, Has-added_self, All-added,
}
use mar_2015_dynamic_storage.Seg.Heap.Around.{free_block, used_block}
use mar_2015_dynamic_storage.Seg.Heap.Used.{
  InPayload, InPayload-Outside, InPayload-used, InPayload-around,
}
use mar_2015_dynamic_storage.Seg.Heap.Coalesce.{
  first_used, neighbours, Sizes-replace, RowWord-replace,
}

module _ (heap_listp free_listp : ℕ) (m : Mem) (lists : Lists) (bp : ℕ) (ls rs : List Block) (n : ℕ)
    (h : IsLaidOut heap_listp free_listp m lists bp
      (ls ++ free_block n ∷ rs)
      (ls ++ used_block n ∷ rs)) where
  abbrev here : ℕ
  here = end_of bp ls

  abbrev tiles : List Block
  tiles = ls ++ free_block n ∷ rs

  abbrev bs : List Block
  bs = ls ++ used_block n ∷ rs

  tiles-Sizes : Sizes tiles
  tiles-Sizes = Tiled-Sizes m bp true tiles h.tiled

  bs-Sizes : Sizes bs
  bs-Sizes = Sizes-replace ls (free_block n) (used_block n) rs refl tiles-Sizes

  own : Tiled m here (last_used true ls) (free_block n ∷ rs)
  own = (Tiled-split m bp true ls (free_block n ∷ rs) h.tiled).1

  size : get_size m (hdrp here) ≡ n
  size = omega (arith, own.0, bit_bound (last_used true ls))

  -- No listed block overlaps the block.
  apart : (y s : ℕ) → FreeAt bp bs y s → (y + 16 ≤ here) ⊎ (here + n ≤ y)
  apart y s f = elim (FreeAt-around bp ls (used_block n) rs y s bs-Sizes f) [
    | inl a ↦ inl a
    | inr (inl a) ↦ cc
    | inr (inr a) ↦ inr a
  ]

  new : IsNew heap_listp free_listp lists here
  unfolding end_of
  new = record {
    above = omega (arith, h.above, le-end_of bp ls);
    near = omega (arith, h.near, end_of-append bp ls (free_block n ∷ rs), le-end_of (here + n) rs);
    clear = λ i k. omega (arith, h.heads, h.room, h.above, le-end_of bp ls);
    far = λ i k.
        All-map (IsMember bp bs i) (Far here) (λ y a. omega (arith, apart y a.0 a.1, own.0))
          (lists i) (h.members i k);
  }

  abbrev after : Mem
  after = freelist_insert heap_listp free_listp here m

  abbrev lists_after : Lists
  lists_after = added lists (list_entry n) here

  insert-IsFreeLists : IsFreeLists heap_listp free_listp after lists_after
  insert-IsFreeLists =
      subst
        (λ t.
          IsFreeLists heap_listp free_listp after
            (update lists (list_entry t) (here ∷ lists (list_entry t))))
        size (freelist_insert_lem heap_listp free_listp m lists here h.in_memory new)

  own_free : FreeAt bp tiles here n
  own_free = FreeAt-right bp ls (free_block n ∷ rs) here n (inl (refl, refl, refl))

  kept : (w : ℕ) → RowWord bp tiles w ⊎ (w ≡ end_of bp tiles - 4) → get after w ≡ get m w
  unfolding end_of
  kept w (inl r) =
      get-freelist_insert heap_listp free_listp m lists h.in_memory here w new
        (RowWord-Outside heap_listp free_listp m lists bp tiles bs h bs-Sizes w
          (inl (RowWord-replace bp ls (free_block n) (used_block n) rs w refl r)))
        (RowWord-Clear bp tiles w here n (omega (arith, h.room, h.above)) tiles-Sizes r own_free)
  kept w (inr e) =
      get-freelist_insert heap_listp free_listp m lists h.in_memory here w new
        (RowWord-Outside heap_listp free_listp m lists bp tiles bs h bs-Sizes w
          (inr (e ∙ ap (λ t. t - 4) same_end)))
        (rw e (end-Clear bp tiles here n tiles-Sizes own_free))
    where
      same_end : end_of bp tiles ≡ end_of bp bs
      same_end =
          end_of-append bp ls (free_block n ∷ rs) ∙ sym (end_of-append bp ls (used_block n ∷ rs))

  members_after : (i : ℕ) → i < 24 → All (IsMember bp tiles i) (lists_after i)
  unfolding end_of
  members_after i k =
      All-added lists (list_entry n) here (IsMember bp tiles) i
        (All-map (IsMember bp bs i) (IsMember bp tiles i) (λ y a. (a.0, swap y a.0 a.1, a.2))
          (lists i) (h.members i k))
        (n, own_free, refl)
    where
      swap : (y s : ℕ) → FreeAt bp bs y s → FreeAt bp tiles y s
      swap y s f =
          FreeAt-other bp ls (used_block n) (free_block n ∷ []) rs y s refl
            (λ q. omega (arith, apart y s f, q, own.0)) f

  complete_after : (y s : ℕ) → FreeAt bp tiles y s → Has y (lists_after (list_entry s))
  unfolding end_of
  complete_after y s f = elim (ℕ_discrete y here) [
    | yes p ↦
        let q : s ≡ n =
          omega (arith, FreeAt-around bp ls (free_block n) rs y s tiles-Sizes f, p, own.0) in
        subst (λ t. Has t (lists_after (list_entry s))) (sym p)
          (subst (λ t. Has here (lists_after (list_entry t))) (sym q)
            (Has-added_self lists (list_entry n) here))
    | no p ↦
        Has-added lists (list_entry n) here (list_entry s) y
          (h.complete y s (FreeAt-other bp ls (free_block n) (used_block n ∷ []) rs y s refl p f))
  ]

  insert-IsHeap : IsHeap heap_listp free_listp after lists_after bp tiles
  insert-IsHeap = record {
    tiled = Tiled-same m after bp true tiles kept h.tiled;
    in_memory = insert-IsFreeLists;
    members = members_after;
    complete = complete_after;
    room = h.room;
    heads = h.heads;
    above = h.above;
    near = h.near;
    aligned = h.aligned;
  }

  -- x
  pub coalesce-IsHeap_alone :
      last_used true ls ≡ true
      → first_used rs ≡ true
      → ((coalesce heap_listp free_listp here m).0 ≡ here)
        × ((after : Lists) × IsHeap heap_listp free_listp
              (coalesce heap_listp free_listp here m).1
              after
              bp
              tiles)
  unfolding coalesce
  coalesce-IsHeap_alone p q =
      let (a, b) = neighbours m here n (last_used true ls) rs own in
      rw (a, b, p, q) (refl, (lists_after, insert-IsHeap))

  -- Under the same conditions the payloads of used blocks stay as they are.
  pub get-coalesce_alone :
      last_used true ls ≡ true
      → first_used rs ≡ true
      → (w : ℕ) → InPayload bp tiles w
      → get (coalesce heap_listp free_listp here m).1 w ≡ get m w
  unfolding coalesce
  get-coalesce_alone p q w u =
      let (a, b) = neighbours m here n (last_used true ls) rs own in
      rw (a, b, p, q)
        (get-freelist_insert heap_listp free_listp m lists h.in_memory here w new
          (InPayload-Outside heap_listp free_listp m lists bp tiles bs h bs-Sizes w
            (InPayload-used bp ls n (used_block n) rs w refl u))
          (omega (arith, InPayload-around bp ls n rs w u, own.0)))
