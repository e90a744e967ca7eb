-- ===== src/Cyc/Collect.antt =====
-- The whole of cyc_collect: the loop over its roots, and the trial of those that it keeps.
use prismio.Base.{ℕ, ◌+◌, List, take, drop}
use prismio.Cyc.{Cyc, free_dead, still_held, unbuffer}
use prismio.Cyc.White.{Leaves}
use prismio.Cyc.Laws.{IsGraph}

module _ (reclaim : ℕ → Cyc → Cyc) (lv : Leaves reclaim) where
  -- collect_roots, of a state whose roots lie in the graph.
  module _ (s : Cyc) (outside : ℕ → ℕ) (objects : List ℕ) (g : IsGraph s outside objects)
      (n : ℕ) where
    abbrev roots : List ℕ
    roots = take n s.candidates

    abbrev started : Cyc
    started = record s {
      collections = s.collections + 1;
      candidates = drop n s.candidates;
      buffered = unbuffer s.buffered roots;
    }

    abbrev dead : Cyc
    dead = free_dead reclaim started roots

    abbrev held_roots : List ℕ
    held_roots = still_held reclaim started roots
