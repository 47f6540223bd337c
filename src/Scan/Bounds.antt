-- ===== src/Scan/Bounds.antt =====
-- The scan of an address space ends, whatever the address space, and keeps its limits.
use mes_copy.Base.{
  ℕ, zero, suc, ◌+◌, ◌-◌, ◌≤◌, ◌<◌, ◌≡◌, refl, ap, String, true, false, Option, some, List, [], ◌∷◌,
  ◌++◌, length, length-append, arith, includes, leb, All, All-append, inl, inr, Bool-cases,
}
use mathlib.Core.Path.{subst}
use mes_copy.Scan.{
  Session, Reference, Pending, Scan, Turn, ended, more, entry_of, is_followed, add_reference,
  add_references, visit, turn_at, go_on, scan_with, scan_address_space,
}

module _ (session : Session) (max_depth max_nodes : ℕ) where
  abbrev IsShallow : Pending → Type 0
  IsShallow p = p.depth ≤ max_depth

  -- The nodes are at most `max_nodes`, and as many if the scan was cut off; nothing deeper than
  -- `max_depth` is to be browsed.
  pub record IsBounded (scan : Scan) : Type 0 where
    pub nodes : length scan.nodes ≤ max_nodes
    pub cut : scan.truncated ≡ true → length scan.nodes ≡ max_nodes
    pub queue : All IsShallow scan.queue

  -- The turns that are left at most.
  abbrev work : Scan → ℕ
  work scan = length scan.queue + (max_nodes - length scan.nodes)

  record IsProgress (before after : Scan) : Type 0 where
    bounded : IsBounded after
    work : work after ≤ work before

  IsProgress-trans : (s t u : Scan) → IsProgress s t → IsProgress t u → IsProgress s u
  IsProgress-trans s t u a b = record { bounded = b.bounded; work = omega (arith, a.work, b.work) }

  length-snoc : {A : Type 0} (xs : List A) (x : A) → length (xs ++ x ∷ []) ≡ length xs + 1
  length-snoc xs x = omega (arith, length-append xs (x ∷ []))

  add_reference-IsProgress :
      (current : Pending) (r : Reference) (scan : Scan)
      → leb max_nodes (length scan.nodes) ≡ false
      → IsBounded scan
      → IsProgress scan (add_reference session max_depth max_nodes current r scan)
  unfolding add_reference is_followed entry_of
  add_reference-IsProgress current r scan room ok =
      let node = entry_of session max_depth max_nodes current r in
      let below : length scan.nodes < max_nodes = ground (arith, room) in
      let longer : length (scan.nodes ++ node ∷ []) ≡ length scan.nodes + 1 =
        length-snoc scan.nodes node in
      let next : Pending = record {
        node_id = r.node_id;
        depth = current.depth + 1;
        path = node.path;
      } in
      elim (Bool-cases (is_followed session max_depth max_nodes current r scan.visited)) [
        | inl follow ↦
            let deeper : current.depth + 1 ≤ max_depth = ground (arith, follow) in
            rw follow (record {
              bounded = record {
                nodes = omega (arith, below, longer);
                cut = λ e. ground (arith, below, ok.cut e);
                queue = All-append IsShallow scan.queue (next ∷ []) ok.queue (deeper, tt);
              };
              work = omega (arith, below, longer, length-snoc scan.queue next);
            })
        | inr leave ↦ rw leave (record {
          bounded = record {
            nodes = omega (arith, below, longer);
            cut = λ e. ground (arith, below, ok.cut e);
            queue = ok.queue;
          };
          work = omega (arith, below, longer);
        })
      ]

  add_references-IsProgress :
      (current : Pending) (rs : List Reference) (scan : Scan)
      → IsBounded scan
      → IsProgress scan (add_references session max_depth max_nodes current rs scan)
  unfolding add_references
  add_references-IsProgress current [] scan ok = record { bounded = ok; work = omega arith }
  add_references-IsProgress current (r ∷ rs) scan ok =
      elim (Bool-cases (leb max_nodes (length scan.nodes))) [
        | inl full ↦ rw full (record {
          bounded = record {
            nodes = ok.nodes;
            cut = λ _. ground (arith, full, ok.nodes);
            queue = ok.queue;
          };
          work = omega arith;
        })
        | inr room ↦
            let added : IsProgress scan (add_reference session max_depth max_nodes current r scan) =
              add_reference-IsProgress current r scan room ok in
            rw room (
              IsProgress-trans scan _ _ added
                (add_references-IsProgress current rs _ added.bounded))
      ]

  -- A turn that does not end the loop leaves less to do.
  abbrev Advances : Scan → Turn → Type 0
  Advances scan (ended after) = IsBounded after
  Advances scan (more after) = IsBounded after × (work after < work scan)

  visit-Advances :
      (current : Pending) (before scan : Scan)
      → work scan < work before
      → IsBounded scan
      → Advances before (visit session max_depth max_nodes current scan)
  unfolding visit
  visit-Advances current before scan less ok =
      elim (Bool-cases (leb max_nodes (length scan.nodes))) [
        | inl full ↦ rw full (record {
          nodes = ok.nodes;
          cut = λ _. ground (arith, full, ok.nodes);
          queue = ok.queue;
        })
        | inr room ↦
            let progress =
              add_references-IsProgress current (session.references current.node_id) scan ok in
            rw room (progress.bounded, omega (arith, progress.work, less))
      ]

  turn-Advances :
      (queue : List Pending) (scan : Scan)
      → scan.queue ≡ queue
      → IsBounded scan
      → Advances scan (turn_at session max_depth max_nodes queue scan)
  unfolding turn_at
  turn-Advances [] scan e ok = ok
  turn-Advances (current ∷ queue) scan e ok =
      let size : length scan.queue ≡ suc (length queue) = ap length e in
      let (_, rest) = queue_of scan.queue e ok.queue in
      elim (Bool-cases (includes current.node_id scan.visited)) [
        | inl again ↦
            rw again (record { nodes = ok.nodes; cut = ok.cut; queue = rest }, omega (arith, size))
        | inr new ↦ rw new (
            visit-Advances current scan
              (record scan { queue = queue; visited = current.node_id ∷ scan.visited })
              (omega (arith, size)) (record { nodes = ok.nodes; cut = ok.cut; queue = rest }))
      ]
    where
      queue_of :
          (q : List Pending)
          → q ≡ current ∷ queue
          → All IsShallow q
          → All IsShallow (current ∷ queue)
      queue_of q same h = subst (λ x. All IsShallow x) same h

  -- The loop gives a result, and that is within the limits.
  abbrev pub Ends : Option Scan → Type 0
  Ends result = (scan : Scan) × (result ≡ some scan) × IsBounded scan

  go_on-Ends :
      (t : Turn) (scan : Scan) (loop : Scan → Option Scan)
      → Advances scan t
      → ((after : Scan) → work after < work scan → IsBounded after → Ends (loop after))
      → Ends (go_on session max_depth max_nodes t loop)
  unfolding go_on
  go_on-Ends (ended after) scan loop bounded k = (after, refl, bounded)
  go_on-Ends (more after) scan loop (bounded, shrinks) k = k after shrinks bounded

  scan_with-Ends :
      (fuel : ℕ) (scan : Scan)
      → work scan < fuel
      → IsBounded scan
      → Ends (scan_with session max_depth max_nodes fuel scan)
  unfolding scan_with
  scan_with-Ends zero scan less ok = elim (impossible less) [ ]
    where
      impossible : work scan < 0 → ⊥
      impossible h = omega (arith, h)
  scan_with-Ends (suc fuel) scan less ok =
      go_on-Ends (turn_at session max_depth max_nodes scan.queue scan) scan
        (scan_with session max_depth max_nodes fuel) (turn-Advances scan.queue scan refl ok)
        (λ after shrinks bounded. scan_with-Ends fuel after (omega (arith, less, shrinks)) bounded)

  -- The scan ends for every address space, also one without an end, with the turns that the limit
  -- on the nodes allows. Its result has at most `max_nodes` nodes, exactly that many if it says
  -- that it was cut off, and nothing waits to be browsed below `max_depth`.
  pub scan_address_space-Ends :
      (root : String) → Ends (scan_address_space session max_depth max_nodes root)
  unfolding scan_address_space
  scan_address_space-Ends root =
      scan_with-Ends (max_nodes + 2) _ (omega arith)
        (record { nodes = omega arith; cut = λ e. cc; queue = (omega arith, tt) })
