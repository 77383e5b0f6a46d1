-- ===== src/Selection/Ranked.antt =====
-- The order in which context_selection/policy.py goes through scored candidates.
use nova_harness.Prelude.{
  All, Bool-cases, List, [], arith, drop, inl, inr, keep, ltb, nat_eq, refl, suc, take, text_eq,
  zero, ℕ, ◌==◌, ◌∙◌, ◌∷◌, ◌≡◌, ◌≤◌,
}
use nova_harness.Selection.Policy.{Item, insert_item, sort_items}

-- Each item scores at least as much as those after it.
abbrev pub IsRanked : List Item → Type 0
IsRanked [] = Unit
IsRanked (x ∷ items) = All (λ y. y.score ≤ x.score) items × IsRanked items

All-le_trans :
    (m n : ℕ) (items : List Item)
    → m ≤ n
    → All (λ y. y.score ≤ m) items
    → All (λ y. y.score ≤ n) items
All-le_trans m n [] h below = tt
All-le_trans m n (y ∷ items) h below = (omega arith, All-le_trans m n items h below.1)

All-insert_item :
    (n : ℕ) (x : Item) (items : List Item)
    → x.score ≤ n
    → All (λ y. y.score ≤ n) items
    → All (λ y. y.score ≤ n) (insert_item x items)
unfolding insert_item
All-insert_item n x [] h below = (h, tt)
All-insert_item n x (y ∷ items) h below = elim (Bool-cases (ltb x.score y.score)) [
  | inl less ↦ rw less (below.0, All-insert_item n x items h below.1)
  | inr more ↦ rw more (h, below)
]

insert_item-IsRanked :
    (x : Item) (items : List Item) → IsRanked items → IsRanked (insert_item x items)
unfolding insert_item
insert_item-IsRanked x [] ranked = (tt, tt)
insert_item-IsRanked x (y ∷ items) ranked = elim (Bool-cases (ltb x.score y.score)) [
  | inl less ↦ rw less (
    All-insert_item y.score x items (ground arith) ranked.0,
    insert_item-IsRanked x items ranked.1,
  )
  | inr more ↦
      let above : y.score ≤ x.score = ground arith in
      rw more ((above, All-le_trans y.score x.score items above ranked.0), ranked)
]

pub sort_items-IsRanked : (items : List Item) → IsRanked (sort_items items)
unfolding sort_items
sort_items-IsRanked [] = tt
sort_items-IsRanked (x ∷ items) =
    insert_item-IsRanked x (sort_items items) (sort_items-IsRanked items)

keep-insert_item :
    (n : ℕ) (x : Item) (items : List Item)
    → keep (λ y. y.score == n) (insert_item x items) ≡ keep (λ y. y.score == n) (x ∷ items)
unfolding insert_item keep
keep-insert_item n x [] = refl
keep-insert_item n x (y ∷ items) = ground (arith, keep-insert_item n x items)

keep-sort_items :
    (n : ℕ) (items : List Item)
    → keep (λ y. y.score == n) (sort_items items) ≡ keep (λ y. y.score == n) items
unfolding sort_items keep
keep-sort_items n [] = refl
keep-sort_items n (x ∷ items) =
    let ih = keep-sort_items n items in keep-insert_item n x (sort_items items) ∙ ground (arith, ih)

-- The items are sorted by falling score, and those of each score stand in their first order: none is
-- lost, and none appears twice for it.
pub sort_items_stable :
    (items : List Item) (n : ℕ)
    → IsRanked (sort_items items)
      × (keep (λ y. y.score == n) (sort_items items) ≡ keep (λ y. y.score == n) items)
sort_items_stable items n = (sort_items-IsRanked items, keep-sort_items n items)

All-drop : (P : Item → Type 0) (k : ℕ) (items : List Item) → All P items → All P (drop k items)
unfolding drop
All-drop P zero items h = h
All-drop P (suc k) [] h = tt
All-drop P (suc k) (x ∷ items) h = All-drop P k items h.1

-- The first items of a ranked list score at least as much as all others.
pub IsRanked-take :
    (k : ℕ) (items : List Item)
    → IsRanked items
    → All (λ x. All (λ y. y.score ≤ x.score) (drop k items)) (take k items)
unfolding take drop
IsRanked-take zero items h = tt
IsRanked-take (suc k) [] h = tt
IsRanked-take (suc k) (x ∷ items) h =
    (All-drop (λ y. y.score ≤ x.score) k items h.0, IsRanked-take k items h.1)
