-- ===== src/CcAlg/Query/Examples.antt =====
-- The queries (src/cc_sketch_alg.cpp) on small inputs.
use graph_zeppelin.Base.{
  ℕ, ◌+◌, ◌*◌, ◌<◌, ◌≡◌, ◌≢◌, ◌⊎◌, ◌↔◌, refl, arith, true, false, List, [], ◌∷◌, some, ◌/◌,
}
use graph_zeppelin.CcAlg.Instr.{create_merge_instructions}
use graph_zeppelin.CcAlg.Round.{
  MergeInstr, Partition, perform_boruvka_round, round_zero_loop, try_sample, new_global,
}
use graph_zeppelin.Bucket.{is_good}
use graph_zeppelin.CcAlg.Supernode.{sample_supernode}
use graph_zeppelin.Sketch.Sample.{sample, query}
use graph_zeppelin.Dsu.{find_root, find_loop, Dsu, reset, new_dsu}
use graph_zeppelin.CcAlg.{CcSketchAlg, new_cc_sketch_alg, has_cached_query, connectivity}
use graph_zeppelin.CcAlg.Forest.{Linked, no_edges, graph_after}
use graph_zeppelin.ReturnTypes.Connectivity.{KeepsSets}
use graph_zeppelin.CcAlg.Query.{
  Machine, replied, connected_components, query_out_of_fuel, query_stuck, boruvka_emulation,
  emulation_loop, settle, reset_samples, first_instrs,
}
use graph_zeppelin.CcAlg.Query.Settled.{Settled, connected_components-Settled}
use graph_zeppelin.CcAlg.Query.Ends.{IsSingle, connected_components_ends}
use graph_zeppelin.CcAlg.Query.Cached.{pre_insert_all-connected_components}
use graph_zeppelin.CcAlg.Stream.{pre_insert_all}
use graph_zeppelin.Pairing.{Edge}
use graph_zeppelin.ReturnTypes.{
  ConnectedComponents, is_connected, new_connected_components, collect_roots,
}
use graph_zeppelin.Sketch.{Sketch, new_sketch, calc_bkt_per_col}

blank : Sketch
unfolding new_sketch
blank = new_sketch (λ n. 3) 8 11 2 1

one_thread : Machine
unfolding blank
one_thread = record {
  hashes = record { vec_hash = λ x s. x * 7 + s + 1; col_hash = λ x s. x * 3 + s };
  failures = λ r k. 0;
  partition = record {
    first_of = λ len i parts. i * len / parts;
    part_of = λ len idx parts. idx * parts / len;
  };
  num_threads = 1;
  schedule = λ r. 0 ∷ [];
  order = 0 ∷ 1 ∷ 2 ∷ [];
  blank = blank;
}

-- Two edges that leave one vertex alone.
abbrev path : List Edge
path = record { src = 1; dst = 0 } ∷ record { src = 1; dst = 2 } ∷ []

pre_insert_all-connected_components_example :
    (a : CcSketchAlg) × (pre_insert_all (λ k. 1) (new_cc_sketch_alg (λ i. 7) 4 blank) path ≡ some a)
    × ((has_cached_query a connectivity ≡ false)
        ⊎ ((c : ConnectedComponents) × (d : Dsu) × (connected_components one_thread a
              ≡ replied c (record a { dsu = d }))
            × KeepsSets a.dsu d
            × ((x y : ℕ)
                → x < 4
                → y < 4
                → (is_connected c x y ≡ true) ↔ Linked (graph_after no_edges path) x y)))
pre_insert_all-connected_components_example =
    pre_insert_all-connected_components one_thread (λ k. 1) (λ i. 7) 4 blank path (omega arith)

-- Two sets of two vertices.
abbrev pairs : Dsu
pairs = record { n = 4; parent = 0 ∷ 1 ∷ 1 ∷ 0 ∷ []; priority = 9 ∷ 8 ∷ 1 ∷ 2 ∷ [] }

abbrev instr : ℕ → ℕ → MergeInstr
instr root child = record { root = root; child = child }

abbrev even_parts : Partition
even_parts = record {
  first_of = λ len i parts. i * len / parts;
  part_of = λ len idx parts. idx * parts / len;
}

abbrev each_alone : List MergeInstr
each_alone = instr 0 0 ∷ instr 1 1 ∷ instr 2 2 ∷ instr 3 3 ∷ []

instrs_sorted :
    create_merge_instructions even_parts 4 1 (0 ∷ []) pairs each_alone
    ≡ some (pairs, instr 0 0 ∷ instr 0 3 ∷ instr 1 1 ∷ instr 1 2 ∷ [])
unfolding create_merge_instructions find_root find_loop
instrs_sorted = refl

-- Two threads, the second of which claims its room first.
instrs_of_two :
    create_merge_instructions even_parts 4 2 (1 ∷ 0 ∷ []) pairs each_alone
    ≡ some (pairs, instr 0 3 ∷ instr 0 0 ∷ instr 1 2 ∷ instr 1 1 ∷ [])
unfolding create_merge_instructions find_root find_loop
instrs_of_two = refl

-- An algorithm whose partition does not hold the answer.
stale : CcSketchAlg
unfolding new_cc_sketch_alg blank
stale = record (new_cc_sketch_alg (λ i. 7) 3 blank) { shared_dsu_valid = false }

one_thread-IsSingle : IsSingle one_thread 3
unfolding one_thread
one_thread-IsSingle = record {
  one = refl;
  turn = λ r. refl;
  whole = record { first = refl; last = refl };
}

-- The query replies: no two of the three vertices are connected.
stale_replies :
    (a : CcSketchAlg) × (connected_components one_thread stale
      ≡ replied (record { parent_arr = 0 ∷ 1 ∷ 2 ∷ []; num_vertices = 3; num_cc = 3 }) a)
unfolding stale one_thread blank connected_components boruvka_emulation new_connected_components
    new_cc_sketch_alg perform_boruvka_round round_zero_loop try_sample sample_supernode sample query
    is_good find_root find_loop reset new_global first_instrs new_dsu reset_samples emulation_loop
    settle collect_roots calc_bkt_per_col
stale_replies = (_, refl)

connected_components-Settled_example :
    (connected_components one_thread stale ≡ query_stuck)
    ⊎ Settled stale (connected_components one_thread stale)
unfolding stale
connected_components-Settled_example =
    connected_components-Settled one_thread stale one_thread-IsSingle (omega arith) refl

connected_components_ends_example : connected_components one_thread stale ≢ query_out_of_fuel
unfolding stale
connected_components_ends_example =
    connected_components_ends one_thread stale one_thread-IsSingle (omega arith)
