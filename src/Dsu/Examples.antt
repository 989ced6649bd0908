-- ===== src/Dsu/Examples.antt =====
-- Tests of a set of four vertices whose priorities tie.
use graph_zeppelin.Base.{ℕ, ◌<◌, ◌≡◌, ◌↔◌, refl, arith, true, List, [], ◌∷◌, none, some}
use graph_zeppelin.Pairing.{Edge}
use graph_zeppelin.Dsu.Atomic.{merge_mt, merge_mt-IsJoin}
use graph_zeppelin.Dsu.{
  Dsu, DsuMergeRet, new_dsu, find_root, find_loop, merge, order_edge, reset, link,
}
use graph_zeppelin.Dsu.Components.{merge_all, Connected, merge_all-Connected}
use graph_zeppelin.Dsu.FindRoot.{IsValid, IsSearch, find_root_lem}
use graph_zeppelin.Dsu.Joined.{IsJoin, merge-IsJoin}
use graph_zeppelin.Dsu.Merge.{SameSet}
use graph_zeppelin.Dsu.Reset.{new_dsu-IsValid}

four : Dsu
unfolding new_dsu
four = new_dsu (λ i. 7) 4

four-IsValid : IsValid four
unfolding four
four-IsValid = new_dsu-IsValid (λ i. 7) 4

abbrev path : List Edge
path = record { src = 3; dst = 1 } ∷ record { src = 2; dst = 3 } ∷ []

merge_runs :
    merge four 3 1
    ≡ some
        (record four { parent = 0 ∷ 1 ∷ 2 ∷ 1 ∷ [] }, record { merged = true; root = 1; child = 3 })
unfolding four merge find_root find_loop order_edge
merge_runs = refl

-- An assertion fails on a vertex that is not there.
find_root_runs : find_root four 4 ≡ none
unfolding four find_root
find_root_runs = refl

find_root_lem_example :
    (qs : List ℕ) × (r : ℕ) × (find_root four 2 ≡ some (record four { parent = qs }, r))
    × IsSearch four.n four.priority four.parent 2 qs r
unfolding four
find_root_lem_example = find_root_lem four 2 four-IsValid (omega arith)

merge-IsJoin_example : (out : Dsu × DsuMergeRet) × (merge four 3 1 ≡ some out) × IsJoin four 3 1 out
unfolding four
merge-IsJoin_example = merge-IsJoin four 3 1 four-IsValid (omega arith) (omega arith)

merge_all-Connected_example :
    (d' : Dsu) × (merge_all (reset four) path ≡ some d')
    × IsValid d'
    × ((x y : ℕ) → x < four.n → y < four.n → SameSet d' x y ↔ Connected path x y)
unfolding four
merge_all-Connected_example = merge_all-Connected four path four-IsValid (omega arith)

-- Two failures and then the link.
merge_mt_runs :
    merge_mt 2 four 3 1
    ≡ some
        (record four { parent = 0 ∷ 1 ∷ 2 ∷ 1 ∷ [] }, record { merged = true; root = 1; child = 3 })
unfolding four merge_mt find_root find_loop order_edge link
merge_mt_runs = refl

merge_mt-IsJoin_example :
    (out : Dsu × DsuMergeRet) × (merge_mt 2 four 3 1 ≡ some out)
    × (merge four 3 1 ≡ some out)
    × IsJoin four 3 1 out
unfolding four
merge_mt-IsJoin_example = merge_mt-IsJoin 2 four 3 1 four-IsValid (omega arith) (omega arith)
