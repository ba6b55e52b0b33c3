-- ===== src/BPlusTree/Grow/Climb.antt =====
-- The insertion of a new node into the nodes above, up to the root.
use open_hikv.Base.{
  ℕ, zero, suc, ◌+◌, ◌-◌, ◌≤◌, ◌<◌, ◌≡◌, ◌≢◌, refl, sym, ap, ◌∙◌, arith, false, ltb, if◌then◌else◌,
  ℕ_discrete, ℤ, pos, negsuc,
}
use open_hikv.BPlusTree.Node.{half_up}
use open_hikv.BPlusTree.Search.{by_value, key_binary_search}
use open_hikv.BPlusTree.Tree.{Tree, Pool, bplus_max_level, done, non_leaf_new}
use open_hikv.BPlusTree.Tree.Insert.{
  Inserted, set_parent, parent_node_build, non_leaf_insert, non_leaf_split,
}
use open_hikv.BPlusTree.Tree.Shape.{Ghost}
use open_hikv.BPlusTree.Grow.Open.{Halves, IsOpen}
use open_hikv.BPlusTree.Grow.Row.{
  owner, above, place, old-Hangs, owner-OpenNode, owner-height, search-place, not_live-NotAmong,
}
use open_hikv.BPlusTree.Grow.Room.{closed, closed-IsSearchTree}
use open_hikv.BPlusTree.Grow.Divide.{divided, halves, ghost}
use open_hikv.BPlusTree.Grow.Reopen.{divided-IsOpen}
use open_hikv.BPlusTree.Grow.Split.{non_leaf_split-Divides}
use open_hikv.BPlusTree.Grow.Stock.{
  Ready, Gives, AllBelow-taken, non_leaf_new-Gives, Ready-taken, Ready-same,
}
use open_hikv.BPlusTree.Grow.Root.{rooted, above_all, new_root-rooted, rooted-IsSearchTree}
use open_hikv.BPlusTree.Grow.Adopt.{Agrees-IsOpen, adopt-IsOpen}
use open_hikv.BPlusTree.Grow.Steps.{
  Up, build-root, build-up, insert_at-room, insert_at-full, non_leaf_insert-at,
}
use open_hikv.BPlusTree.Grow.Carry.{
  SameLeaves-trans, Agrees-SameLeaves, taken-SameLeaves, written-SameLeaves, upd_same, Completes,
  Completes-from,
}

module _ (t : Tree) (p : Pool) (g : Ghost) (s : Halves) (level : ℕ) (o : IsOpen t g s)
    (top : t.header.parent s.young ≡ 0) (ready : Ready g t p) (large : 3 ≤ t.order)
    (tall : t.level + 1 < bplus_max_level) where
  climb-root :
      (f : ℕ)
      → s.old ≡ t.root
      → Completes t g
          (parent_node_build (non_leaf_insert by_value f) t p s.left s.right s.key level)
  climb-root f at_root =
      let (t1, p1, a) = non_leaf_new t p in
      let (agrees, ready1, free, apart) = non_leaf_new-Gives g t p ready in
      let o1 = Agrees-IsOpen g s t t1 agrees o in
      let t2 = rooted t1 s a in
      let g2 = above_all g t1.level a in
      (
        t2,
        p1,
        g2,
        build-root (non_leaf_insert by_value f) t p s level o.sides
              (ap t.header.parent at_root ∙ o.root_top) top tall
            ∙ ap (λ r. done (r.0, r.1, pos 0)) (new_root-rooted t p s),
        rooted-IsSearchTree t1 g s o1 (at_root ∙ sym agrees.root) a free
            (omega (arith, large, agrees.order)),
        AllBelow-taken t1 t2 g g2 a (ready1.0) free.below (λ b. refl) refl,
        SameLeaves-trans t t1 t2 g g g2 (Agrees-SameLeaves t t1 g agrees)
            (taken-SameLeaves t1 t2 g g2 a free refl refl (λ b. refl) (λ b. refl) (λ b. refl)),
      )

-- The state between the split of a node and the insertion into the node above it.
abbrev after_split :
    Up → Tree → Pool → (node sibling l_ch r_ch : ℕ) → ℤ → (x size level : ℕ) → Inserted
after_split up t p node sibling l_ch r_ch key x size level =
    let first = ltb x (half_up size) in
    let r = non_leaf_split t node sibling l_ch r_ch key x in
    parent_node_build up (r.0) p (if first then sibling else node) (if first then node else sibling)
      (r.1) level

after_split-eq :
    (up : Up) (t : Tree) (p : Pool) (node sibling l_ch r_ch : ℕ) (key : ℤ) (x size level : ℕ)
    (t' : Tree) (left_at right_at : ℕ) (key' : ℤ)
    → non_leaf_split t node sibling l_ch r_ch key x ≡ (t', key')
    → left_at ≡ (if ltb x (half_up size) then sibling else node)
    → right_at ≡ (if ltb x (half_up size) then node else sibling)
    → after_split up t p node sibling l_ch r_ch key x size level
      ≡ parent_node_build up t' p left_at right_at key' level
after_split-eq up t p node sibling l_ch r_ch key x size level t' left_at right_at key' e l r =
    rw (l, r)
      (ap
        (λ z.
          parent_node_build up (z.0) p (if ltb x (half_up size) then sibling else node)
            (if ltb x (half_up size) then node else sibling) (z.1) level)
        e)

-- With `f` levels of fuel, every insertion of a node completes that stands at most `f` levels below
-- the root.
abbrev Climbs : ℕ → Type 0
Climbs f =
    (t : Tree) (p : Pool) (g : Ghost) (s : Halves) (level : ℕ) (o : IsOpen t g s)
    → t.header.parent s.young ≡ 0
    → Ready g t p
    → 3 ≤ t.order
    → t.level + 1 < bplus_max_level
    → t.level ≤ f + g.height s.old
    → Completes t g (parent_node_build (non_leaf_insert by_value f) t p s.left s.right s.key level)

module _ (f : ℕ) (climbs : Climbs f) (t : Tree) (p : Pool) (g : Ghost) (s : Halves) (level : ℕ)
    (o : IsOpen t g s) (other : s.old ≢ t.root)
    (adopted : t.header.parent s.young ≡ owner t g s o other) (ready : Ready g t p)
    (large : 3 ≤ t.order) (tall : t.level + 1 < bplus_max_level)
    (bound : t.level ≤ suc f + g.height s.old) where
  abbrev node : ℕ
  node = owner t g s o other

  insert-room :
      (above t g s o other).children < t.order
      → Completes t g (non_leaf_insert by_value (suc f) t p node s.left s.right s.key level)
  insert-room room =
      let w = closed-IsSearchTree t g s o other adopted room in
      (
        closed t g s o other adopted,
        p,
        g,
        non_leaf_insert-at f t p node s.left s.right s.key level _ (search-place t g s o other)
            ∙ insert_at-room (non_leaf_insert by_value f) t p node s.left s.right s.key level
                (place t g s o other) room,
        w,
        ready.0,
        written-SameLeaves t g _ _ _,
      )

  module _ (full : (above t g s o other).children ≡ t.order) where
    abbrev taken : Tree × Pool × ℕ
    taken = non_leaf_new t p

    abbrev t2 : Tree
    t2 = taken.0

    gives : Gives g t false taken
    gives = non_leaf_new-Gives g t p ready

    o2 : IsOpen t2 g s
    o2 = Agrees-IsOpen g s t t2 (gives.0) o

    other2 : s.old ≢ t2.root
    other2 e = other (e ∙ (gives.0).root)

    same_owner : owner t2 g s o2 other2 ≡ node
    same_owner = (gives.0).parent s.old o.old_lives

    adopted2 : t2.header.parent s.young ≡ owner t2 g s o2 other2
    adopted2 = (gives.0).parent s.young o.young_lives ∙ adopted ∙ sym same_owner

    same_above : above t2 g s o2 other2 ≡ above t g s o other
    same_above =
        ap t2.non_leaf_at same_owner ∙ (gives.0).non_leaf_at node (old-Hangs t g s o other).lives

    full2 : (above t2 g s o2 other2).children ≡ t2.order
    full2 = ap (λ n. n.children) same_above ∙ full ∙ sym ((gives.0).order)

    search2 :
        key_binary_search by_value
          (above t g s o other).key
          ((above t g s o other).children - 1)
          s.key
        ≡ negsuc (place t2 g s o2 other2)
    search2 =
        ap (λ n. key_binary_search by_value n.key (n.children - 1) s.key) (sym same_above)
        ∙ search-place t2 g s o2 other2

    insert-full :
        Completes t g (non_leaf_insert by_value (suc f) t p node s.left s.right s.key level)
    insert-full =
        let (agrees, ready2, free, apart) = gives in
        let a = taken.2 in
        let up = non_leaf_insert by_value f in
        let x = place t2 g s o2 other2 in
        let at2 = owner t2 g s o2 other2 in
        let (d, v, eq, l, r) =
          non_leaf_split-Divides t2 g s o2 other2 adopted2 a free.not_null free.unused free.kind
            (omega (arith, large, agrees.order)) full2 in
        let t3 = divided t2 g s o2 other2 adopted2 a d in
        let g3 = ghost t2 g s o2 other2 adopted2 a d in
        let s3 = halves t2 g s o2 other2 adopted2 a d in
        let o3 = divided-IsOpen t2 g s o2 other2 adopted2 a d v in
        let stays = λ (b : ℕ) (z : g.live b ≡ false).
          v.is_split.same_parent b (not_live-NotAmong t2 g s o2 other2 b z) in
        let same3 =
          SameLeaves-trans t t2 t3 g g g3 (Agrees-SameLeaves t t2 g agrees)
            (taken-SameLeaves t2 t3 g g3 a free refl refl (λ b. refl) (λ b. refl) (λ b. refl)) in
        let lifted : g3.height s3.old ≡ g.height s.old + 1 =
          upd_same g.height a at2 ∙ ap g.height same_owner ∙ owner-height t g s o other in
        Completes-from t t3 g g3 _ _ same3
          (non_leaf_insert-at f t p node s.left s.right s.key level _ search2
            ∙ insert_at-full up t p node s.left s.right s.key level x full
            ∙ ap
                (λ n.
                  after_split up t2 taken.1 n a s.left s.right s.key x
                    (above t g s o other).children level)
                (sym same_owner)
            ∙ ap (λ n. after_split up t2 taken.1 at2 a s.left s.right s.key x n.children level)
                (sym same_above)
            ∙ after_split-eq up t2 taken.1 at2 a s.left s.right s.key x _ level t3 d.left_at
                d.right_at d.key eq l r)
          (climbs t3 taken.1 g3 s3 level o3 (stays a free.unused ∙ free.top)
            (Ready-taken t2 t3 g g3 taken.1 a false ready2 free apart (λ b. refl) refl (λ b. refl)
              stays)
            (omega (arith, large, agrees.order)) (omega (arith, tall, agrees.level))
            (omega (arith, bound, lifted, agrees.level)))

  -- One level of the climb.
  insert-Completes :
      Completes t g (non_leaf_insert by_value (suc f) t p node s.left s.right s.key level)
  insert-Completes = elim (ℕ_discrete (above t g s o other).children t.order) [
    | yes full ↦ insert-full full
    | no n ↦
        let room : (above t g s o other).children < t.order =
          omega (arith, n, (owner-OpenNode t g s o other).fits) in
        insert-room room
  ]

pub climb : (f : ℕ) → Climbs f
climb zero t p g s level o top ready large tall bound = elim (ℕ_discrete s.old t.root) [
  | yes at_root ↦ climb-root t p g s level o top ready large tall zero at_root
  | no other ↦ absurd (
      omega (
        arith,
        bound,
        owner-height t g s o other,
        o.not_higher (owner t g s o other) (old-Hangs t g s o other).lives,
      ))
]
climb (suc f) t p g s level o top ready large tall bound = elim (ℕ_discrete s.old t.root) [
  | yes at_root ↦ climb-root t p g s level o top ready large tall (suc f) at_root
  | no other ↦
      let q = owner t g s o other in
      let t1 = set_parent t s.young q in
      let o1 = adopt-IsOpen g s t q o in
      let same : t1.header.parent s.old ≡ q = ground (arith, o.apart) in
      let adopted : t1.header.parent s.young ≡ t1.header.parent s.old = ground (arith, o.apart) in
      let ready1 =
        Ready-same t t1 g p ready refl (λ b. refl) (λ b z. ground (arith, z, o.young_lives)) in
      let not_null : q ≢ 0 = λ e. cc ((old-Hangs t g s o other).lives, e, o.not_null) in
      Completes-from t t1 g g _ _ (written-SameLeaves t g _ _ _)
        (build-up (non_leaf_insert by_value (suc f)) t p s level o.sides not_null top
          ∙ ap (λ n. non_leaf_insert by_value (suc f) t1 p n s.left s.right s.key (level + 1))
              (sym same))
        (insert-Completes f (climb f) t1 p g s (level + 1) o1 other adopted ready1 large tall bound)
]
