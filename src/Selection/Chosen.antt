-- ===== src/Selection/Chosen.antt =====
-- What `ContextSelectionPolicy.select` of context_selection/policy.py selects and drops.
use nova_harness.Prelude.{
  Bool-cases, List, Text, [], ap, arith, drop, drop-nil, false, inl, inr, length, ltb, map, min,
  refl, subst, suc, sym, take, take-nil, true, ℕ, ◌&&◌, ◌+◌, ◌-◌, ◌∷◌, ◌≡◌,
}
use nova_harness.Selection.Policy.{Choice, Item, choose, decision_of}

-- How many more items of a type may be selected.
abbrev pub room : ℕ → ℕ → ℕ → ℕ → ℕ
room most max_total n total = min (most - n) (max_total - total)

abbrev pub ids_of : List Item → List Text
ids_of items = map (λ x. x.item_id) items

pub record Greedy (items : List Item) (k total : ℕ) (choice : Choice) : Type 0 where
  pub selects : choice.selected ≡ ids_of (take k items)
  pub drops : choice.dropped ≡ ids_of (drop k items)
  pub totals : choice.total_selected ≡ total + length choice.selected
  pub decides : map (λ d. d.item_id) choice.decisions ≡ ids_of items

room-suc :
    (most max_total n total : ℕ)
    → (ltb n most && ltb total max_total) ≡ true
    → room most max_total n total ≡ suc (room most max_total (suc n) (suc total))
room-suc most max_total n total h = ground arith

room-zero :
    (most max_total n total : ℕ)
    → (ltb n most && ltb total max_total) ≡ false
    → room most max_total n total ≡ 0
room-zero most max_total n total h = ground arith

pub choose-Greedy :
    (item_type : Text) (most max_total n total : ℕ) (items : List Item)
    → Greedy items
        (room most max_total n total)
        total
        (choose item_type most max_total n total items)
unfolding choose decision_of take drop
choose-Greedy item_type most max_total n total [] = record {
  selects = sym (ap ids_of (take-nil (room most max_total n total)));
  drops = sym (ap ids_of (drop-nil (room most max_total n total)));
  totals = omega arith;
  decides = refl;
}
choose-Greedy item_type most max_total n total (x ∷ items) =
    elim (Bool-cases (ltb n most && ltb total max_total)) [
      | inl open' ↦
          let ih = choose-Greedy item_type most max_total (suc n) (suc total) items in
          rw (open', room-suc most max_total n total open')
            (record {
              selects = ap (λ ids. x.item_id ∷ ids) ih.selects;
              drops = ih.drops;
              totals = omega (arith, ih.totals);
              decides = ap (λ ids. x.item_id ∷ ids) ih.decides;
            })
      | inr full ↦
          let ih : Greedy items 0 total (choose item_type most max_total n total items) =
            subst (λ k. Greedy items k total (choose item_type most max_total n total items))
              (room-zero most max_total n total full)
              (choose-Greedy item_type most max_total n total items) in
          rw (full, room-zero most max_total n total full)
            (record {
              selects = ih.selects;
              drops = ap (λ ids. x.item_id ∷ ids) ih.drops;
              totals = ih.totals;
              decides = ap (λ ids. x.item_id ∷ ids) ih.decides;
            })
    ]
