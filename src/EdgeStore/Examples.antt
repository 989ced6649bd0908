-- ===== src/EdgeStore/Examples.antt =====
-- The edge store on small inputs, and the witnesses of its theorems.
use graph_zeppelin.Base.{
  ℕ, ◌+◌, ◌≡◌, refl, arith, true, List, [], ◌∷◌, ◌==◌, if◌then◌else◌, if_elim,
}
use graph_zeppelin.EdgeStore.{
  vertex_advance_subgraph, SubgraphTaggedUpdate, EdgeStore, before, check_if_too_big,
}
use graph_zeppelin.EdgeStore.Insert.{merge_updates, insert_tagged}
use graph_zeppelin.EdgeStore.Weigh.{weigh, Exceeds}
use graph_zeppelin.EdgeStore.Fill.{merge_updates-weigh}
use graph_zeppelin.EdgeStore.Stored.{IsPermuting, insert_tagged-StoresIn, StoresIn}
use graph_zeppelin.EdgeStore.Contract.{vertex_advance_subgraph-Returns, Returns}
use graph_zeppelin.EdgeStore.Drain.{contraction_ends, DrainsTo, drain}

abbrev tagged : ℕ → ℕ → SubgraphTaggedUpdate
tagged s d = record { subgraph = s; dst = d }

insert_one : SubgraphTaggedUpdate → List SubgraphTaggedUpdate → List SubgraphTaggedUpdate
unfolding before
insert_one x [] = x ∷ []
insert_one x (y ∷ ys) = let rest = insert_one x ys in if before y x then y ∷ rest else x ∷ y ∷ ys

insertion_sort : List SubgraphTaggedUpdate → List SubgraphTaggedUpdate
unfolding insert_one
insertion_sort [] = []
insertion_sort (x ∷ xs) = insert_one x (insertion_sort xs)

weigh-insert_one :
    (w : SubgraphTaggedUpdate → ℕ) (x : SubgraphTaggedUpdate) (ys : List SubgraphTaggedUpdate)
    → weigh w (insert_one x ys) ≡ w x + weigh w ys
unfolding insert_one
weigh-insert_one w x [] = refl
weigh-insert_one w x (y ∷ ys) =
    if_elim (λ zs. weigh w zs ≡ w x + (w y + weigh w ys)) (before y x) _ _
      (λ e. omega (arith, weigh-insert_one w x ys)) (λ e. refl)

insertion_sort-IsPermuting : IsPermuting insertion_sort
unfolding insertion_sort
insertion_sort-IsPermuting w [] = refl
insertion_sort-IsPermuting w (x ∷ xs) =
    omega (arith, weigh-insert_one w x (insertion_sort xs), insertion_sort-IsPermuting w xs)

-- An equal pair cancels.
merge_cancels : merge_updates (tagged 0 1 ∷ tagged 0 3 ∷ []) (tagged 0 3 ∷ []) 0 ≡ tagged 0 1 ∷ []
unfolding merge_updates
merge_cancels = refl

-- After an exchange an equal pair is not met: the loop compares no update with the one that the
-- exchange has moved.
merge_misses_pair :
    merge_updates (tagged 0 1 ∷ tagged 0 3 ∷ []) (tagged 0 2 ∷ tagged 0 3 ∷ []) 0
    ≡ tagged 0 1 ∷ tagged 0 2 ∷ tagged 0 3 ∷ tagged 0 3 ∷ []
unfolding merge_updates
merge_misses_pair = refl

-- The update that a buffered one takes the place of is larger than the next: the order is lost.
merge_out_of_order :
    merge_updates (tagged 0 2 ∷ tagged 0 4 ∷ []) (tagged 0 1 ∷ tagged 0 3 ∷ []) 0
    ≡ tagged 0 1 ∷ tagged 0 2 ∷ tagged 0 4 ∷ tagged 0 3 ∷ []
unfolding merge_updates
merge_out_of_order = refl

-- A second update of the edge that is out of place does not cancel it.
merge_keeps_both :
    merge_updates (tagged 0 1 ∷ tagged 0 2 ∷ tagged 0 4 ∷ tagged 0 3 ∷ []) (tagged 0 3 ∷ []) 0
    ≡ tagged 0 1 ∷ tagged 0 2 ∷ tagged 0 3 ∷ tagged 0 3 ∷ tagged 0 4 ∷ []
unfolding merge_updates
merge_keeps_both = refl

abbrev count_three : SubgraphTaggedUpdate → ℕ
count_three x = if x.dst == 3 then 1 else 0

merge_updates-weigh_example : Exceeds 2 (
    weigh count_three
      (merge_updates (tagged 0 1 ∷ tagged 0 3 ∷ []) (tagged 0 2 ∷ tagged 0 3 ∷ []) 0))
merge_updates-weigh_example =
    merge_updates-weigh count_three (tagged 0 1 ∷ tagged 0 3 ∷ []) (tagged 0 2 ∷ tagged 0 3 ∷ []) 0
      (omega arith)

-- Three vertices, the first of which holds two updates, at the limit of two.
abbrev small_store : EdgeStore
small_store = record {
  seed = 0;
  num_vertices = 3;
  num_subgraphs = 4;
  cur_subgraph = 1;
  true_min_subgraph = 1;
  num_edges = 2;
  needs_contraction = 0;
  adjlist = (tagged 1 1 ∷ tagged 2 2 ∷ []) ∷ [] ∷ [] ∷ [];
  vertex_contracted = true ∷ true ∷ true ∷ [];
  max_edges = 2;
}

insert_tagged-StoresIn_example :
    StoresIn small_store 0
      (tagged 2 2 ∷ tagged 0 1 ∷ [])
      (insert_tagged insertion_sort small_store 0 1 (tagged 2 2 ∷ tagged 0 1 ∷ []))
insert_tagged-StoresIn_example =
    insert_tagged-StoresIn insertion_sort small_store 0 1 (tagged 2 2 ∷ tagged 0 1 ∷ [])
      insertion_sort-IsPermuting (omega arith) refl (omega arith) (omega arith)

contraction_ends_example : DrainsTo 2 (drain 4 (check_if_too_big small_store))
contraction_ends_example = contraction_ends small_store refl refl (omega arith) refl (omega arith)

vertex_advance_subgraph-Returns_example :
    Returns small_store (vertex_advance_subgraph small_store 1)
vertex_advance_subgraph-Returns_example =
    vertex_advance_subgraph-Returns small_store 1 refl (omega arith)
