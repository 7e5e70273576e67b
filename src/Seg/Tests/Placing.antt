-- ===== src/Seg/Tests/Placing.antt =====
-- The listed block of 32 bytes at 2000, of which 16 or 24 bytes are allocated.
use mar_2015_dynamic_storage.Base.{ℕ, ◌+◌, ◌≤◌, ◌≡◌, ◌⊎◌, refl, [], arith, ap, ◌%◌}
use mar_2015_dynamic_storage.Machine.Memory.{get, put}
use mar_2015_dynamic_storage.Links
use mar_2015_dynamic_storage.Seg.{list_of, freelist_insert}
use mar_2015_dynamic_storage.Seg.Sizes.{list_entry}
use mar_2015_dynamic_storage.Seg.Lists.{}
use mar_2015_dynamic_storage.Seg.Place.{Placed}
use mar_2015_dynamic_storage.Seg.Place.Split.{Rest}
use mar_2015_dynamic_storage.Seg.Tests.Heaps.{one, listed, words, class_two, Outside-one, All-one}

next_header : get (listed 2000) 2028 ≡ 32
unfolding freelist_insert Links.insert list_of list_entry get put
next_header = refl

placed :
    (asize : ℕ)
    → 16 ≤ asize
    → asize ≤ 32
    → asize % 8 ≡ 0
    → Placed 1104 1004 (listed 2000) (one 2000) 2000 asize 32 [] []
placed asize h k e = record {
  header_size = words.0;
  sizes = (omega arith, omega arith);
  min_size = h;
  fits = k;
  above = (omega arith, omega arith);
  listed = ap (one 2000) class_two;
  header = Outside-one 2000 1996 (omega arith) (omega arith);
  next_header = Outside-one 2000 2028 (omega arith) (omega arith);
  next_word = omega (arith, next_header);
}

half : Placed 1104 1004 (listed 2000) (one 2000) 2000 16 (16 + 16) [] []
half = placed 16 (omega arith) (omega arith) (omega arith)

rest : Rest 1104 1004 (one 2000) 2000 16 16
rest = record {
  min_size = omega arith;
  new = record {
    above = omega arith;
    near = omega arith;
    clear = λ i r. omega arith;
    far = λ i r. All-one (λ y. (2024 ≤ y) ⊎ (y + 8 ≤ 2016)) 2000 i (omega arith);
  };
  header = Outside-one 2000 2012 (omega arith) (omega arith);
  footer = Outside-one 2000 2024 (omega arith) (omega arith);
}
