-- ===== src/Links/Branches.antt =====
-- The four branches of freelist_delete come to the same pair of writes.
use native.Mathlib.Decide.{ℕ_discrete}
use mar_2015_dynamic_storage.Base.{
  ℕ, ◌+◌, ◌≡◌, ◌≢◌, ◌⊎◌, inl, inr, arith, ◌==◌, false, if◌then◌else◌,
}
use mar_2015_dynamic_storage.Machine.Memory.{Mem, get, put, get-put-Apart}
use mar_2015_dynamic_storage.Links.{delete, delete_only, delete_last, delete_first, delete_middle}
use mar_2015_dynamic_storage.Links.Chain.{Clear, Far}

module _ (heap_listp : ℕ) where
  -- what the four branches of freelist_delete write
  abbrev pub unlink : Mem → (list n q : ℕ) → Mem
  unlink m list n q =
      put (if n == 0 then m else put m (n + heap_listp + 4) q)
        (if q == 0 then list else q + heap_listp) n

-- The four branches at a memory `k` in which the block has the offsets `n` and `q`.
module _ (heap_listp list bp : ℕ) (k : Mem) (n q : ℕ) (e : get k bp ≡ n)
    (e' : get k (bp + 4) ≡ q) where
  only_on : n ≡ 0 → q ≡ 0 → delete_only heap_listp list bp k ≡ put k list 0
  unfolding delete_only
  only_on h h' = rw (e, e', h, h')

  only_off : (n ≢ 0) ⊎ (q ≢ 0) → delete_only heap_listp list bp k ≡ k
  unfolding delete_only
  only_off h = rw (e, e') (ground arith)

  last_on : n ≡ 0 → q ≢ 0 → delete_last heap_listp list bp k ≡ put k (q + heap_listp) 0
  unfolding delete_last
  last_on h h' = rw (e, e', h) (ground arith)

  last_off : (n ≢ 0) ⊎ (q ≡ 0) → delete_last heap_listp list bp k ≡ k
  unfolding delete_last
  last_off h = rw (e, e') (ground arith)

  first_on :
      n ≢ 0
      → q ≡ 0
      → Far (n + heap_listp) bp
      → delete_first heap_listp list bp k ≡ put (put k (n + heap_listp + 4) 0) list n
  unfolding delete_first
  first_on h h' f =
      let same = get-put-Apart k (n + heap_listp + 4) 0 bp (omega arith) in
      rw (e, e', same, e) (ground arith)

  first_off : (n ≡ 0) ⊎ (q ≢ 0) → delete_first heap_listp list bp k ≡ k
  unfolding delete_first
  first_off h = rw (e, e') (ground arith)

  middle_on :
      n ≢ 0
      → q ≢ 0
      → Far (n + heap_listp) bp
      → delete_middle heap_listp list bp k ≡ put (put k (n + heap_listp + 4) q) (q + heap_listp) n
  unfolding delete_middle
  middle_on h h' f =
      let same = get-put-Apart k (n + heap_listp + 4) q bp (omega arith) in
      let same' = get-put-Apart k (n + heap_listp + 4) q (bp + 4) (omega arith) in
      rw (e, e', same, same', e, e') (ground arith)

  middle_off : (n ≡ 0) ⊎ (q ≡ 0) → delete_middle heap_listp list bp k ≡ k
  unfolding delete_middle
  middle_off h = rw (e, e') (ground arith)

module _ (heap_listp list bp : ℕ) (m : Mem) (n q : ℕ) (e : get m bp ≡ n)
    (e' : get m (bp + 4) ≡ q) where
  delete_only-unlink :
      Clear list bp → n ≡ 0 → q ≡ 0 → delete heap_listp list bp m ≡ unlink heap_listp m list n q
  unfolding delete
  delete_only-unlink c h h' =
      let k : Mem = put m list 0 in
      let d : get k bp ≡ n = omega (arith, get-put-Apart m list 0 bp (omega arith)) in
      let d' : get k (bp + 4) ≡ q = omega (arith, get-put-Apart m list 0 (bp + 4) (omega arith)) in
      rw
        (
          only_on heap_listp list bp m n q e e' h h',
          last_off heap_listp list bp k n q d d' (inr h'),
          first_off heap_listp list bp k n q d d' (inl h),
          middle_off heap_listp list bp k n q d d' (inl h),
        )
        (rw (h, h'))

  delete_last-unlink :
      Far (q + heap_listp) bp
      → n ≡ 0
      → q ≢ 0
      → delete heap_listp list bp m ≡ unlink heap_listp m list n q
  unfolding delete
  delete_last-unlink f h h' =
      let p = q + heap_listp in
      let k : Mem = put m p 0 in
      let d : get k bp ≡ n = omega (arith, get-put-Apart m p 0 bp (omega arith)) in
      let d' : get k (bp + 4) ≡ q = omega (arith, get-put-Apart m p 0 (bp + 4) (omega arith)) in
      let some_prev : (q == 0) ≡ false = ground arith in
      rw
        (
          only_off heap_listp list bp m n q e e' (inr h'),
          last_on heap_listp list bp m n q e e' h h',
          first_off heap_listp list bp k n q d d' (inl h),
          middle_off heap_listp list bp k n q d d' (inl h),
        )
        (rw (h, some_prev))

  delete_first-unlink :
      Clear list bp
      → Far (n + heap_listp) bp
      → n ≢ 0
      → q ≡ 0
      → delete heap_listp list bp m ≡ unlink heap_listp m list n q
  unfolding delete
  delete_first-unlink c f h h' =
      let p = n + heap_listp + 4 in
      let k₁ : Mem = put m p 0 in
      let k : Mem = put k₁ list n in
      let d : get k bp ≡ n =
        omega
          (arith, get-put-Apart k₁ list n bp (omega arith), get-put-Apart m p 0 bp (omega arith)) in
      let d' : get k (bp + 4) ≡ q = omega (
        arith,
        get-put-Apart k₁ list n (bp + 4) (omega arith),
        get-put-Apart m p 0 (bp + 4) (omega arith),
      ) in
      let some_next : (n == 0) ≡ false = ground arith in
      rw
        (
          only_off heap_listp list bp m n q e e' (inl h),
          last_off heap_listp list bp m n q e e' (inl h),
          first_on heap_listp list bp m n q e e' h h' f,
          middle_off heap_listp list bp k n q d d' (inr h'),
        )
        (rw (some_next, h'))

  delete_middle-unlink :
      Far (n + heap_listp) bp
      → n ≢ 0
      → q ≢ 0
      → delete heap_listp list bp m ≡ unlink heap_listp m list n q
  unfolding delete
  delete_middle-unlink f h h' =
      let some_next : (n == 0) ≡ false = ground arith in
      let some_prev : (q == 0) ≡ false = ground arith in
      rw
        (
          only_off heap_listp list bp m n q e e' (inl h),
          last_off heap_listp list bp m n q e e' (inl h),
          first_off heap_listp list bp m n q e e' (inr h'),
          middle_on heap_listp list bp m n q e e' h h' f,
        )
        (rw (some_next, some_prev))

  -- On the neighbours' blocks being far from `bp`, the four branches come to one pair of writes.
  pub delete-unlink :
      Clear list bp
      → (n ≡ 0) ⊎ Far (n + heap_listp) bp
      → (q ≡ 0) ⊎ Far (q + heap_listp) bp
      → delete heap_listp list bp m ≡ unlink heap_listp m list n q
  delete-unlink c (inl h) (inl h') = delete_only-unlink c h h'
  delete-unlink c (inl h) (inr g) = elim (ℕ_discrete q 0) [
    | yes h' ↦ delete_only-unlink c h h'
    | no h' ↦ delete_last-unlink g h h'
  ]
  delete-unlink c (inr f) (inl h') = elim (ℕ_discrete n 0) [
    | yes h ↦ delete_only-unlink c h h'
    | no h ↦ delete_first-unlink c f h h'
  ]
  delete-unlink c (inr f) (inr g) = elim (ℕ_discrete n 0) [
    | yes h ↦ elim (ℕ_discrete q 0) [
      | yes h' ↦ delete_only-unlink c h h'
      | no h' ↦ delete_last-unlink g h h'
    ]
    | no h ↦ elim (ℕ_discrete q 0) [
      | yes h' ↦ delete_first-unlink c f h h'
      | no h' ↦ delete_middle-unlink f h h'
    ]
  ]
