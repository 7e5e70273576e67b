-- ===== src/Seg/Lists.antt =====
-- The 24 free lists of the segregated allocator as a map from classes to lists of blocks.
-- freelist_insert and freelist_delete change the one list of the block's class.
use native.Mathlib.Decide.{ℕ_discrete}
use mar_2015_dynamic_storage.Base.{
  ℕ, ◌+◌, ◌*◌, ◌^◌, ◌<◌, ◌≡◌, ◌≢◌, List, [], ◌∷◌, ◌++◌, arith, All, All-map, All-without, ◌==◌,
  if◌then◌else◌,
}
use mar_2015_dynamic_storage.Machine.Memory.{Mem, get, Apart}
use mar_2015_dynamic_storage.Blocks.{get_size, hdrp}
use mar_2015_dynamic_storage.Links.Chain.{Clear, Far, Spaced, Linked, IsFreeList}
use mar_2015_dynamic_storage.Links.Insert.{Fits, insert-cons, get-insert}
use mar_2015_dynamic_storage.Links.Delete.{delete-erase, get-delete}
use mar_2015_dynamic_storage.Seg.{list_of, freelist_insert, freelist_delete}
use mar_2015_dynamic_storage.Seg.Sizes.{list_entry}
use mar_2015_dynamic_storage.Seg.Classes.{list_entry-lt}

-- which blocks each list holds
abbrev pub Lists : Type 0
Lists = ℕ → List ℕ

abbrev pub update : Lists → ℕ → List ℕ → Lists
update lists e xs i = if i == e then xs else lists i

-- the word that heads the list `i`
abbrev pub head : ℕ → ℕ → ℕ
head free_listp i = free_listp + 4 * i

-- The lists in memory: each is linked in both directions, and no two share a byte.
pub record IsFreeLists (heap_listp free_listp : ℕ) (m : Mem) (lists : Lists) : Type 0 where
  pub linked : (i : ℕ) → i < 24 → Linked heap_listp m 0 (get m (head free_listp i)) (lists i)
  pub clear : (i j : ℕ) → i < 24 → j < 24 → All (Clear (head free_listp i)) (lists j)
  pub spaced : (i : ℕ) → i < 24 → Spaced (lists i)
  pub apart : (i j : ℕ) → i < 24 → j < 24 → i ≢ j → All (λ x. All (Far x) (lists j)) (lists i)

-- a block that is in no list, and whose link words no list uses
pub record IsNew (heap_listp free_listp : ℕ) (lists : Lists) (bp : ℕ) : Type 0 where
  pub above : heap_listp < bp
  pub near : bp < heap_listp + 2 ^ 32
  pub clear : (i : ℕ) → i < 24 → Clear (head free_listp i) bp
  pub far : (i : ℕ) → i < 24 → All (Far bp) (lists i)

-- Far is symmetric.
All-Far_sym : (xs ys : List ℕ) → All (λ x. All (Far x) ys) xs → All (λ y. All (Far y) xs) ys
All-Far_sym xs [] h = tt
All-Far_sym xs (y ∷ ys) h = (
  All-map (λ x. All (Far x) (y ∷ ys)) (Far y) (λ x f. omega (arith, f.0)) xs h,
  All-Far_sym xs ys (All-map (λ x. All (Far x) (y ∷ ys)) (λ x. All (Far x) ys) (λ x f. f.1) xs h),
)

with_new :
    (bp : ℕ) (zs xs : List ℕ)
    → All (Far bp) xs
    → All (λ x. All (Far x) zs) xs
    → All (λ x. All (Far x) (bp ∷ zs)) xs
with_new bp zs [] f g = tt
with_new bp zs (x ∷ xs) f g = ((omega (arith, f.0), g.0), with_new bp zs xs f.1 g.1)

-- Memory that agrees on a list's links holds the list too.
pub Linked-same :
    (heap_listp : ℕ) (m k : Mem) (prev w : ℕ) (xs : List ℕ)
    → All (λ x. (get k x ≡ get m x) × (get k (x + 4) ≡ get m (x + 4))) xs
    → Linked heap_listp m prev w xs
    → Linked heap_listp k prev w xs
Linked-same heap_listp m k prev w [] s h = h
Linked-same heap_listp m k prev w (x ∷ xs) s h =
    (omega (arith, h.0, s.0), rw (s.0.0) (Linked-same heap_listp m k w (get m x) xs s.1 h.1))

-- A change of the list `e` from `lists e` to `ys`, with writes to that list and to the blocks `zs`
-- only.
module _ (heap_listp free_listp : ℕ) (m k : Mem) (lists : Lists) (e : ℕ) (ys zs : List ℕ)
    (l : IsFreeLists heap_listp free_listp m lists) (in_range : e < 24)
    (new : IsFreeList heap_listp k (head free_listp e) ys)
    (frame : (p : ℕ) → Apart (head free_listp e) p → All (Clear p) zs → get k p ≡ get m p)
    (heads : (i : ℕ)
      → i < 24
      → All (Clear (head free_listp i)) zs × All (Clear (head free_listp i)) ys)
    (far : (i : ℕ)
      → i < 24
      → i ≢ e
      → All (λ x. All (Far x) zs) (lists i) × All (λ x. All (Far x) ys) (lists i)) where
  other-Linked :
      (i : ℕ) → i < 24 → i ≢ e → Linked heap_listp k 0 (get k (head free_listp i)) (lists i)
  other-Linked i h ne = rw (frame (head free_listp i) (omega arith) (heads i h).0) (
      Linked-same heap_listp m k 0 (get m (head free_listp i)) (lists i)
        (same (lists i) (l.clear e i in_range h) (far i h ne).0) (l.linked i h))
    where
      same :
          (xs : List ℕ)
          → All (Clear (head free_listp e)) xs
          → All (λ x. All (Far x) zs) xs
          → All (λ x. (get k x ≡ get m x) × (get k (x + 4) ≡ get m (x + 4))) xs
      same [] c f = tt
      same (x ∷ xs) c f = (
        (
          frame x (omega (arith, c.0)) (All-map (Far x) (Clear x) (λ y g. omega arith) zs f.0),
          frame (x + 4) (omega (arith, c.0))
              (All-map (Far x) (Clear (x + 4)) (λ y g. omega arith) zs f.0),
        ),
        same xs c.1 f.1,
      )

  update_self : update lists e ys e ≡ ys
  update_self = ground arith

  update_ne : (i : ℕ) → i ≢ e → update lists e ys i ≡ lists i
  update_ne i ne = ground arith

  update-IsFreeLists : IsFreeLists heap_listp free_listp k (update lists e ys)
  update-IsFreeLists = record {
    linked = λ i h. elim (ℕ_discrete i e) [
      | yes p ↦ rw (p, update_self) new.linked
      | no p ↦ rw (update_ne i p) (other-Linked i h p)
    ];
    clear = λ i j h h'. elim (ℕ_discrete j e) [
      | yes p ↦ rw (p, update_self) (heads i h).1
      | no p ↦ rw (update_ne j p) (l.clear i j h h')
    ];
    spaced = λ i h. elim (ℕ_discrete i e) [
      | yes p ↦ rw (p, update_self) new.spaced
      | no p ↦ rw (update_ne i p) (l.spaced i h)
    ];
    apart = λ i j h h' ne. elim (ℕ_discrete i e) [
      | yes p ↦ elim (ℕ_discrete j e) [
        | yes p' ↦ absurd (omega arith)
        | no p' ↦ rw (update_ne j p', p, update_self) (All-Far_sym (lists j) ys (far j h' p').1)
      ]
      | no p ↦ elim (ℕ_discrete j e) [
        | yes p' ↦ rw (p', update_self, update_ne i p) (far i h p).1
        | no p' ↦ rw (update_ne j p', update_ne i p) (l.apart i j h h' ne)
      ]
    ];
  }

module _ (heap_listp free_listp : ℕ) (m : Mem) (lists : Lists) (bp : ℕ) where
  -- the list of the block's size
  abbrev pub class : ℕ
  class = list_entry (get_size m (hdrp bp))

  pub list_at :
      IsFreeLists heap_listp free_listp m lists
      → IsFreeList heap_listp m (head free_listp class) (lists class)
  list_at l =
      let h = list_entry-lt (get_size m (hdrp bp)) in
      record {
        linked = l.linked class h;
        clear = l.clear class class h h;
        spaced = l.spaced class h;
      }

  -- If the lists are well linked: freelist_insert puts the block in front of the list of its size and
  -- leaves the other lists: in memory all 24 stay doubly linked, with the blocks apart. The block is
  -- new and lies within 2 ^ 32 bytes above `heap_listp`.
  pub freelist_insert_lem :
      IsFreeLists heap_listp free_listp m lists
      → IsNew heap_listp free_listp lists bp
      → IsFreeLists heap_listp free_listp
          (freelist_insert heap_listp free_listp bp m)
          (update lists class (bp ∷ lists class))
  unfolding freelist_insert list_of
  freelist_insert_lem l n =
      let h = list_entry-lt (get_size m (hdrp bp)) in
      let fits : Fits heap_listp (head free_listp class) bp (lists class) = record {
        above = n.above;
        near = n.near;
        clear = n.clear class h;
        far = n.far class h;
      } in
      update-IsFreeLists heap_listp free_listp m (freelist_insert heap_listp free_listp bp m) lists
        class (bp ∷ lists class) (bp ∷ lists class) l h
        (insert-cons heap_listp (head free_listp class) bp m (lists class) (list_at l) fits)
        (λ p a c.
          get-insert heap_listp (head free_listp class) bp m (lists class) p (list_at l) fits a c)
        (λ i r. ((n.clear i r, l.clear i class r h), (n.clear i r, l.clear i class r h)))
        (λ i r ne.
          let f = with_new bp (lists class) (lists i) (n.far i r) (l.apart i class r h ne) in
          (f, f))

  -- If the lists are well linked, and the list of the block's size holds it between `xs` and `ys`:
  -- freelist_delete takes the block out of the list of its size, wherever it stands there, keeps the
  -- order of the others, and leaves the other lists.
  pub freelist_delete_lem :
      (xs ys : List ℕ)
      → lists class ≡ xs ++ bp ∷ ys
      → IsFreeLists heap_listp free_listp m lists
      → IsFreeLists heap_listp free_listp
          (freelist_delete heap_listp free_listp bp m)
          (update lists class (xs ++ ys))
  unfolding freelist_delete list_of
  freelist_delete_lem xs ys e l =
      let h = list_entry-lt (get_size m (hdrp bp)) in
      let list = head free_listp class in
      let at : IsFreeList heap_listp m list (xs ++ bp ∷ ys) = rw (← e) (list_at l) in
      let heads = λ (i : ℕ) (r : i < 24).
        All-without (Clear (head free_listp i)) xs bp ys (rw e at (l.clear i class r h)) in
      let far = λ (i : ℕ) (r : i < 24) (ne : i ≢ class).
        All-map (λ x. All (Far x) (lists class)) (λ x. All (Far x) (xs ++ ys))
          (λ x f. All-without (Far x) xs bp ys (rw e at f)) (lists i) (l.apart i class r h ne) in
      update-IsFreeLists heap_listp free_listp m (freelist_delete heap_listp free_listp bp m) lists
        class (xs ++ ys) (xs ++ ys) l h (delete-erase heap_listp list bp m xs ys at)
        (λ p a c. get-delete heap_listp list bp m xs ys at p a c) (λ i r. (heads i r, heads i r))
        (λ i r ne. (far i r ne, far i r ne))
