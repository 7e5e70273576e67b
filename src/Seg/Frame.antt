-- ===== src/Seg/Frame.antt =====
-- Words that no free list uses: they can be written without a change of the lists, and the lists can
-- change without a change of them. Headers and footers are such words.
use mar_2015_dynamic_storage.Base.{
  ℕ, ◌%◌, ◌^◌, ◌<◌, ◌≡◌, List, ◌∷◌, ◌++◌, arith, All, All-without, ◌==◌, if◌then◌else◌,
}
use mar_2015_dynamic_storage.Machine.Memory.{Mem, get, put, Apart, get-put-Apart, get-put_self}
use mar_2015_dynamic_storage.Machine.Word.{bit1, set_bit1}
use mar_2015_dynamic_storage.Blocks.{get_size, hdrp, put_hd}
use mar_2015_dynamic_storage.Links.Chain.{Clear, Linked-put}
use mar_2015_dynamic_storage.Links.Insert.{Fits, get-insert}
use mar_2015_dynamic_storage.Links.Delete.{get-delete}
use mar_2015_dynamic_storage.Seg.{list_of, freelist_insert, freelist_delete}
use mar_2015_dynamic_storage.Seg.Sizes.{}
use mar_2015_dynamic_storage.Seg.Classes.{list_entry-lt}
use mar_2015_dynamic_storage.Seg.Lists.{Lists, head, IsFreeLists, IsNew, list_at, class}

-- The word at `p` is neither the head of a list nor a link of a listed block.
pub record Outside (free_listp : ℕ) (lists : Lists) (p : ℕ) : Type 0 where
  pub heads : (i : ℕ) → i < 24 → Apart (head free_listp i) p
  pub blocks : (i : ℕ) → i < 24 → All (Clear p) (lists i)

-- a multiple of 8 that fits a word
abbrev pub IsSize : ℕ → Type 0
IsSize v = (v % 8 ≡ 0) × (v < 2 ^ 32)

pub get_size-put : (m : Mem) (p v : ℕ) → IsSize v → get_size (put m p v) p ≡ v
get_size-put m p v s = omega (arith, get-put_self m p v)

pub get_size-put_hd : (m : Mem) (p v : ℕ) → IsSize v → get_size (put_hd p v m) p ≡ v
get_size-put_hd m p v s = ground (arith, get-put_self m p v, get-put_self m p (set_bit1 v))

pub get-put_hd-Apart : (m : Mem) (p v q : ℕ) → Apart p q → get (put_hd p v m) q ≡ get m q
get-put_hd-Apart m p v q a = get-put-Apart m p (if bit1 (get m p) == 0 then v else set_bit1 v) q a

module _ (heap_listp free_listp : ℕ) (m : Mem) (lists : Lists)
    (l : IsFreeLists heap_listp free_listp m lists) where
  pub put-IsFreeLists :
      (p v : ℕ) → Outside free_listp lists p → IsFreeLists heap_listp free_listp (put m p v) lists
  put-IsFreeLists p v o = record {
    linked = λ i h. rw (get-put-Apart m p v (head free_listp i) (omega (arith, o.heads i h))) (
        Linked-put heap_listp m p v 0 (get m (head free_listp i)) (lists i) (o.blocks i h)
          (l.linked i h));
    clear = l.clear;
    spaced = l.spaced;
    apart = l.apart;
  }

  pub get-freelist_insert :
      (bp p : ℕ)
      → IsNew heap_listp free_listp lists bp
      → Outside free_listp lists p
      → Clear p bp
      → get (freelist_insert heap_listp free_listp bp m) p ≡ get m p
  unfolding freelist_insert list_of
  get-freelist_insert bp p n o c =
      let i = class heap_listp free_listp m lists bp in
      let h = list_entry-lt (get_size m (hdrp bp)) in
      let fits : Fits heap_listp (head free_listp i) bp (lists i) = record {
        above = n.above;
        near = n.near;
        clear = n.clear i h;
        far = n.far i h;
      } in
      get-insert heap_listp (head free_listp i) bp m (lists i) p
        (list_at heap_listp free_listp m lists bp l) fits (o.heads i h) (c, o.blocks i h)

  pub get-freelist_delete :
      (bp : ℕ) (xs ys : List ℕ) (p : ℕ)
      → lists (class heap_listp free_listp m lists bp) ≡ xs ++ bp ∷ ys
      → Outside free_listp lists p
      → get (freelist_delete heap_listp free_listp bp m) p ≡ get m p
  unfolding freelist_delete list_of
  get-freelist_delete bp xs ys p e o =
      let i = class heap_listp free_listp m lists bp in
      let h = list_entry-lt (get_size m (hdrp bp)) in
      get-delete heap_listp (head free_listp i) bp m xs ys
        (rw (← e) (list_at heap_listp free_listp m lists bp l)) p (o.heads i h)
        (All-without (Clear p) xs bp ys (rw e at (o.blocks i h)))
