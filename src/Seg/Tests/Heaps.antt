-- ===== src/Seg/Tests/Heaps.antt =====
-- Free lists in a small heap: two neighbours of 32 bytes at 2000 and 2032, one of which is listed.
use mathlib.Core.Path.{◌∙◌, ap, sym}
use native.Mathlib.Decide.{ℕ_discrete}
use mar_2015_dynamic_storage.Base.{
  ℕ, ◌+◌, ◌-◌, ◌≤◌, ◌<◌, ◌≡◌, subst, refl, [], ◌∷◌, arith, All, ◌⊎◌, inl, inr, some,
}
use mar_2015_dynamic_storage.Machine.Memory.{Mem, get, put}
use mar_2015_dynamic_storage.Blocks.{get_size, hdrp}
use mar_2015_dynamic_storage.Links
use mar_2015_dynamic_storage.Seg.{list_of, freelist_insert, freelist_delete, coalesce_next}
use mar_2015_dynamic_storage.Seg.Sizes.{list_entry}
use mar_2015_dynamic_storage.Seg.Fit.{find_fit}
use mar_2015_dynamic_storage.Seg.Lists.{
  Lists, update, IsFreeLists, IsNew, class, freelist_insert_lem, freelist_delete_lem,
}
use mar_2015_dynamic_storage.Seg.Search.{
  Searchable, Fit, Has, first_fit, candidates, find_fit_lem, find_fit-first_fit,
}
use mar_2015_dynamic_storage.Seg.Coalesce.Next
use mar_2015_dynamic_storage.Seg.Coalesce.Next.{NextFree, coalesce_next_lem, coalesce_next-overlap}
use mar_2015_dynamic_storage.Seg.Coalesce.Prev.{PrevFree}
use mar_2015_dynamic_storage.Seg.Frame.{Outside, put-IsFreeLists}

abbrev pub no_lists : Lists
no_lists i = []

-- the headers of both blocks and the footer of the first
abbrev pub headers : Mem
headers = put (put (put (λ a. 0) 1996 32) 2028 32) 2024 32

pub zero_lists : IsFreeLists 1104 1004 (λ a. 0) no_lists
unfolding get
zero_lists = record {
  linked = λ i h. omega arith;
  clear = λ i j h h'. tt;
  spaced = λ i h. tt;
  apart = λ i j h h' n. tt;
}

pub outside : (p : ℕ) → 1100 ≤ p → Outside 1004 no_lists p
outside p h = record { heads = λ i r. omega arith; blocks = λ i r. tt }

headers_lists : IsFreeLists 1104 1004 headers no_lists
headers_lists =
    put-IsFreeLists 1104 1004 _ no_lists
      (put-IsFreeLists 1104 1004 _ no_lists
        (put-IsFreeLists 1104 1004 _ no_lists zero_lists 1996 32 (outside 1996 (omega arith))) 2028
        32 (outside 2028 (omega arith)))
      2024 32 (outside 2024 (omega arith))

pub new_block : (x : ℕ) → 1104 < x → x < 5000 → IsNew 1104 1004 no_lists x
new_block x h k = record {
  above = h;
  near = omega arith;
  clear = λ i r. omega arith;
  far = λ i r. tt;
}

freelist_insert_lem_example :
    IsFreeLists 1104 1004
      (freelist_insert 1104 1004 2000 headers)
      (update no_lists (class 1104 1004 headers no_lists 2000) (2000 ∷ []))
freelist_insert_lem_example =
    freelist_insert_lem 1104 1004 headers no_lists 2000 headers_lists
      (new_block 2000 (omega arith) (omega arith))

-- the block `x` alone in the list 2
abbrev pub one : ℕ → Lists
one x = update no_lists 2 (x ∷ [])

abbrev pub listed : ℕ → Mem
listed x = freelist_insert 1104 1004 x headers

sizes : (get_size headers 1996 ≡ 32) × (get_size headers 2028 ≡ 32)
unfolding get put
sizes = (refl, refl)

pub class_two : list_entry 32 ≡ 2
unfolding list_entry
class_two = refl

listed_lists :
    (x : ℕ)
    → 1104 < x
    → x < 5000
    → get_size headers (hdrp x) ≡ 32
    → IsFreeLists 1104 1004 (listed x) (one x)
listed_lists x h k e =
    subst (λ t. IsFreeLists 1104 1004 (listed x) (update no_lists t (x ∷ [])))
      (ap list_entry e ∙ class_two)
      (freelist_insert_lem 1104 1004 headers no_lists x headers_lists (new_block x h k))

pub prev_listed : IsFreeLists 1104 1004 (listed 2000) (one 2000)
prev_listed = listed_lists 2000 (omega arith) (omega arith) sizes.0

next_listed : IsFreeLists 1104 1004 (listed 2032) (one 2032)
next_listed = listed_lists 2032 (omega arith) (omega arith) sizes.1

pub All-one : (P : ℕ → Type 0) (x i : ℕ) → P x → All P (one x i)
All-one P x i h = elim (ℕ_discrete i 2) [
  | yes e ↦ let here : one x i ≡ x ∷ [] = ground (arith, e) in rw here (h, tt)
  | no e ↦ let none_here : one x i ≡ [] = ground (arith, e) in rw none_here tt
]

pub Outside-one : (x p : ℕ) → 1100 ≤ p → (p + 4 ≤ x) ⊎ (x + 8 ≤ p) → Outside 1004 (one x) p
Outside-one x p h c = record {
  heads = λ i r. omega arith;
  blocks = λ i r. All-one (λ y. (p + 4 ≤ y) ⊎ (y + 8 ≤ p)) x i c;
}

-- what stands in the words of the heap
pub words :
    (get_size (listed 2000) 1996 ≡ 32)
    × (get_size (listed 2000) 2028 ≡ 32)
    × (get_size (listed 2000) 2024 ≡ 32)
    × (get_size (listed 2032) 1996 ≡ 32)
    × (get_size (listed 2032) 2028 ≡ 32)
unfolding freelist_insert Links.insert list_of list_entry get put
words = (refl, refl, refl, refl, refl)

freelist_delete_lem_example :
    IsFreeLists 1104 1004
      (freelist_delete 1104 1004 2000 (listed 2000))
      (update (one 2000) (class 1104 1004 (listed 2000) (one 2000) 2000) [])
freelist_delete_lem_example =
    freelist_delete_lem 1104 1004 (listed 2000) (one 2000) 2000 [] [] in_list prev_listed
  where
    in_list : one 2000 (class 1104 1004 (listed 2000) (one 2000) 2000) ≡ 2000 ∷ []
    in_list = ap (one 2000) (ap list_entry words.0 ∙ class_two)

pub one-cases : (x i : ℕ) → ((i ≡ 2) × (one x i ≡ x ∷ [])) ⊎ (one x i ≡ [])
one-cases x i = elim (ℕ_discrete i 2) [
  | yes e ↦ inl (e, ground (arith, e))
  | no e ↦ inr (ground (arith, e))
]

searchable : Searchable 1104 1004 (listed 2000) (one 2000) 4
searchable = record {
  in_memory = prev_listed;
  classed = λ i h. elim (one-cases 2000 i) [
    | inl (e, here) ↦ rw here (ap list_entry words.0 ∙ class_two ∙ sym e, tt)
    | inr none_here ↦ rw none_here tt
  ];
  enough = λ i h. elim (one-cases 2000 i) [
    | inl (e, here) ↦ rw here (omega arith)
    | inr none_here ↦ rw none_here (omega arith)
  ];
}

find_fit_lem_example :
    (p : ℕ) × (find_fit 1104 (listed 2000) 24 4 1004 ≡ some p)
    × Fit 1104 1004 (listed 2000) (one 2000) 4 24 searchable p
find_fit_lem_example = find_fit_lem 1104 1004 (listed 2000) (one 2000) 4 24 searchable

find_fit-first_fit_example :
    find_fit 1104 (listed 2000) 24 4 1004
    ≡ some (first_fit (listed 2000) 24 (candidates (one 2000) (24 - list_entry 24) (list_entry 24)))
find_fit-first_fit_example = find_fit-first_fit 1104 1004 (listed 2000) (one 2000) 4 24 searchable

next_free : NextFree 1104 1004 (listed 2032) (one 2032) 2000 32 32
next_free = record {
  header_size = words.3;
  next_header_size = words.4;
  total = omega arith;
  min_size = omega arith;
  next_min_size = omega arith;
  new = record {
    above = omega arith;
    near = omega arith;
    clear = λ i r. omega arith;
    far = λ i r. All-one (λ y. (2008 ≤ y) ⊎ (y + 8 ≤ 2000)) 2032 i (omega arith);
  };
  header = Outside-one 2032 1996 (omega arith) (omega arith);
  footer = Outside-one 2032 2056 (omega arith) (omega arith);
  room = omega arith;
}

prev_free : PrevFree 1104 1004 (listed 2000) (one 2000) 2000 2032 32 32 [] []
prev_free = record {
  place = omega arith;
  header_size = words.1;
  prev_footer_size = words.2;
  prev_header_size = words.0;
  total = omega arith;
  min_size = omega arith;
  prev_min_size = omega arith;
  above = omega arith;
  near = omega arith;
  room = omega arith;
  listed = ap (one 2000) class_two;
  header = Outside-one 2000 2028 (omega arith) (omega arith);
  prev_footer = Outside-one 2000 2024 (omega arith) (omega arith);
  prev_header = Outside-one 2000 1996 (omega arith) (omega arith);
  footer = Outside-one 2000 2056 (omega arith) (omega arith);
}

coalesce_next-overlap_example :
    let k = (coalesce_next 1104 1004 2000 (listed 2032)).1 in
    let after =
      Next.lists_after 1104 1004 (listed 2032) (one 2032) 2000 32 32 next_listed next_free in
    IsFreeLists 1104 1004 k after
    × Has 2032 (after 2)
    × Has 2000 (after (list_entry 64))
    × (get_size k 2028 ≡ 32)
    × (2000 < 2032)
    × (2032 + get_size k 2028 ≡ 2000 + get_size k 1996)
coalesce_next-overlap_example =
    coalesce_next-overlap 1104 1004 (listed 2032) (one 2032) 2000 32 32 next_listed next_free 2
      (inl refl) (Outside-one 2032 2028 (omega arith) (omega arith))
