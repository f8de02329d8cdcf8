-- ===== src/Examples/Map.antt =====
-- The theorems on kstdlib/map.hh at small maps.
use os_projet.Common.{ℕ, ◌≡◌, refl, true, false, ◌==◌, if◌then◌else◌, arith, some, inl}
use os_projet.Map.{Store, find_node, insert, find_from, at, contains, index, out_of_range}
use os_projet.Map.Shape.{Tree, leaf, fork}
use os_projet.Map.Balance.{IsRedBlack, entries}
use os_projet.Map.Whole.{Represents, Fixed}
use os_projet.Map.Grown.{insert_entry}
use os_projet.Map.Insert.{insert-refines}
use os_projet.Map.Find.{find_node-finds}
use os_projet.Map.Index.{at-finds, Indexed, index-Indexed}
use os_projet.Map.Clear.{Clears, clear-Clears}
use os_projet.Map.Erase.{clear, erase}
use os_projet.Map.EraseOne.{Erased, erase-Erased}

-- A black node at 10 with the key 5, and a red one at 20 with the key 3 on its left.
abbrev two_nodes : Store ℕ
two_nodes = record {
  key = λ x. if x == 10 then 5 else if x == 20 then 3 else 0;
  value = λ x. if x == 10 then 50 else 30;
  red = λ x. x == 20;
  parent = λ x. if x == 20 then 10 else 0;
  left = λ x. if x == 10 then 20 else 0;
  right = λ x. 0;
  root = 10;
}

abbrev two_tree : Tree ℕ
two_tree = fork (fork leaf 20 3 30 true leaf) 10 5 50 false leaf

two_nodes-Represents : Represents two_nodes two_tree
two_nodes-Represents = record {
  bound = 100;
  stands = (
    omega arith,
    omega arith,
    record {
      real = ground arith;
      key = refl;
      value = refl;
      red = refl;
      parent = refl;
      left = refl;
      right = refl;
    },
    (
      omega arith,
      omega arith,
      record {
        real = ground arith;
        key = refl;
        value = refl;
        red = refl;
        parent = refl;
        left = refl;
        right = refl;
      },
      tt,
      tt,
    ),
    tt,
  );
  root = refl;
}

two_tree-IsRedBlack : IsRedBlack two_tree
two_tree-IsRedBlack = record {
  balanced = (refl, (refl, tt, tt), tt);
  calm = ((λ e. ground (arith, e)), (λ e. refl), ((λ e. refl), (λ e. refl), tt, tt), tt);
  black_root = refl;
}

no_one : find_node 3 two_nodes 1 ≡ some 0
unfolding find_node find_from
no_one = refl

insert-refines_example : Fixed (insert_entry 30 1 8 (entries two_tree)) (insert 3 30 1 8 two_nodes)
insert-refines_example =
    insert-refines 3 30 1 8 two_nodes two_tree two_nodes-Represents two_tree-IsRedBlack
      (ground arith) (ground arith, (ground arith, tt, tt), tt) (omega arith) no_one

find_node-finds_example : find_node 3 two_nodes 3 ≡ some 20
find_node-finds_example =
    find_node-finds 1 two_nodes two_tree 3 two_nodes-Represents two_tree-IsRedBlack (omega arith)

at-finds_example : (at 3 two_nodes 4 ≡ out_of_range) × (contains 3 two_nodes 4 ≡ some false)
at-finds_example =
    at-finds 1 two_nodes two_tree 4 two_nodes-Represents two_tree-IsRedBlack (omega arith)

index-Indexed_example : Indexed 30 4 0 (entries two_tree) (index 5 30 4 0 two_nodes)
index-Indexed_example =
    index-Indexed 2 30 4 0 two_nodes two_tree two_nodes-Represents two_tree-IsRedBlack
      (ground arith) (ground arith, (ground arith, tt, tt), tt) (omega arith)

clear-Clears_example : Clears (entries two_tree) (clear 3 two_nodes)
clear-Clears_example = clear-Clears 3 two_nodes two_tree two_nodes-Represents (omega arith)

finds_red : find_node 3 two_nodes 3 ≡ some 20
unfolding find_node find_from
finds_red = refl

erase-Erased_example : Erased (entries two_tree) 20 (erase 3 two_nodes 3)
erase-Erased_example =
    erase-Erased 2 two_nodes two_tree 3 20 two_nodes-Represents two_tree-IsRedBlack (omega arith)
      finds_red (ground arith) (inl refl) (λ e. ground (arith, e))
