-- ===== src/Driver/RandomData.antt =====
-- randomize_block and check_index of malloclab-handout/mdriver.c: a payload is filled with bytes from
-- a table, and compared with it later. The table and the results of `random()` are parameters.
use mar_2015_dynamic_storage.Base.{
  ℕ, zero, suc, ◌+◌, ◌%◌, ◌^◌, ◌≤◌, ◌<◌, ◌≡◌, ◌≢◌, refl, ◌∙◌, ap, arith, ◌==◌, if◌then◌else◌,
}
use native.Mathlib.Decide.{ℕ_discrete}
use mar_2015_dynamic_storage.Machine.Memory.{Mem}

-- RANDOM_DATA_LEN
abbrev pub random_data_len : ℕ
random_data_len = 2 ^ 16

unfoldable pub poke : Mem → ℕ → ℕ → Mem
poke m p v q = if q == p then v else m q

poke_self : (m : Mem) (p v : ℕ) → poke m p v p ≡ v
unfolding poke
poke_self m p v = ground arith

module _ (random_data : ℕ → ℕ) (block base : ℕ) where
  -- the loop of randomize_block with `n` bytes left, from byte `i` on
  unfoldable pub fill : (n i : ℕ) → Mem → Mem
  fill zero i m = m
  fill (suc n) i m =
      fill n (i + 1) (poke m (block + i) (random_data ((base + i) % random_data_len)))

  -- the loop of check_index: how many bytes differ
  unfoldable pub garbled : (n i : ℕ) → Mem → ℕ
  garbled zero i m = 0
  garbled (suc n) i m =
      let rest = garbled n (i + 1) m in
      if m (block + i) == random_data ((base + i) % random_data_len) then rest else rest + 1

  byte-fill_below : (n i : ℕ) (m : Mem) (q : ℕ) → q < block + i → fill n i m q ≡ m q
  unfolding fill poke
  byte-fill_below zero i m q h = refl
  byte-fill_below (suc n) i m q h = ground (
    arith,
    byte-fill_below n (i + 1) (poke m (block + i) (random_data ((base + i) % random_data_len))) q,
  )

  garbled-same :
      (n i : ℕ) (m k : Mem)
      → ((q : ℕ) → block + i ≤ q → q < block + i + n → k q ≡ m q)
      → garbled n i k ≡ garbled n i m
  unfolding garbled
  garbled-same zero i m k h = refl
  garbled-same (suc n) i m k h =
      ground (
        arith,
        h (block + i),
        garbled-same n (i + 1) m k (λ q a b. h q (omega arith) (omega arith)),
      )

  garbled-fill_from : (n i : ℕ) (m : Mem) → garbled n i (fill n i m) ≡ 0
  unfolding garbled fill
  garbled-fill_from zero i m = refl
  garbled-fill_from (suc n) i m =
      let v = random_data ((base + i) % random_data_len) in
      let m₁ = poke m (block + i) v in
      let kept : fill n (i + 1) m₁ (block + i) ≡ v =
        byte-fill_below n (i + 1) m₁ (block + i) (omega arith) ∙ poke_self m (block + i) v in
      rw (kept, garbled-fill_from n (i + 1) m₁) (ground arith)

  -- The loops: right after that of randomize_block, that of check_index finds no garbled byte; nor
  -- does it after any change of the memory outside the payload.
  pub garbled-fill :
      (size : ℕ) (m k : Mem)
      → ((q : ℕ) → block ≤ q → q < block + size → k q ≡ fill size 0 m q)
      → garbled size 0 k ≡ 0
  garbled-fill size m k h =
      garbled-same size 0 (fill size 0 m) k (λ q a b. h q (omega arith) (omega arith))
      ∙ garbled-fill_from size 0 m

  -- check_index counts at least one garbled byte if one of the payload differs from the table.
  pub garbled-pos :
      (n i : ℕ) (m : Mem) (j : ℕ)
      → i ≤ j
      → j < i + n
      → m (block + j) ≢ random_data ((base + j) % random_data_len)
      → 0 < garbled n i m
  unfolding garbled
  garbled-pos zero i m j h k ne = absurd (omega arith)
  garbled-pos (suc n) i m j h k ne = elim (ℕ_discrete j i) [
    | yes e ↦ ground (
      arith,
      ne,
      e,
      ap (λ t. m (block + t)) e,
      ap (λ t. random_data ((base + t) % random_data_len)) e,
    )
    | no e ↦ ground (arith, garbled-pos n (i + 1) m j (omega arith) (omega arith) ne)
  ]
