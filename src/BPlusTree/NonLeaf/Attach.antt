-- ===== src/BPlusTree/NonLeaf/Attach.antt =====
-- What the loops that copy sub-nodes do: cells of the owner's array are filled with the sub-nodes that
-- `subs` lists, and the headers of these name the owner and the cell.
use open_hikv.Base.{ℕ, ◌+◌, ◌≤◌, ◌<◌, ◌≡◌, ◌≢◌, refl, ◌∙◌, arith, ℤ, pred_ℤ, ℕ_discrete}
use open_hikv.BPlusTree.Node.{NonLeaf}
use open_hikv.BPlusTree.NonLeaf.{Header, Family, attach, with_key}

-- No address is listed twice.
abbrev pub IsInjective : (ℕ → ℕ) → ℕ → Type 0
IsInjective subs n = (i j : ℕ) → i < n → j < n → subs i ≡ subs j → i ≡ j

abbrev pub NotAmong : (ℕ → ℕ) → (from to a : ℕ) → Type 0
NotAmong subs from to a = (q : ℕ) → from ≤ q → q < to → subs q ≢ a

-- The headers of a node's sub-nodes name it and the key left of them.
pub record Owned (owner : ℕ) (n : NonLeaf) (h : Header) : Type 0 where
  pub parent_of : (q : ℕ) → q < n.children → h.parent (n.sub_ptr q) ≡ owner
  pub idx_of : (q : ℕ) → q < n.children → h.parent_key_idx (n.sub_ptr q) ≡ pred_ℤ q

pub record Attached (owner : ℕ) (subs : ℕ → ℕ) (from to : ℕ) (f f' : Family) : Type 0 where
  pub filled : (q : ℕ) → from ≤ q → q < to → f'.node.sub_ptr q ≡ subs q
  pub kept : (q : ℕ) → q < from → f'.node.sub_ptr q ≡ f.node.sub_ptr q
  pub owned : (q : ℕ) → from ≤ q → q < to → f'.header.parent (subs q) ≡ owner
  pub placed : (q : ℕ) → from ≤ q → q < to → f'.header.parent_key_idx (subs q) ≡ pred_ℤ q
  pub same_parent : (a : ℕ) → NotAmong subs from to a → f'.header.parent a ≡ f.header.parent a
  pub same_idx :
      (a : ℕ) → NotAmong subs from to a → f'.header.parent_key_idx a ≡ f.header.parent_key_idx a

module _ (owner : ℕ) (subs : ℕ → ℕ) where
  pub Attached-none : (from to : ℕ) (f : Family) → to ≡ from → Attached owner subs from to f f
  Attached-none from to f e = record {
    filled = λ q a b. absurd (omega arith);
    kept = λ q a. refl;
    owned = λ q a b. absurd (omega arith);
    placed = λ q a b. absurd (omega arith);
    same_parent = λ a n. refl;
    same_idx = λ a n. refl;
  }

  -- One cell is filled, then those behind it.
  pub Attached-step :
      (from next to child : ℕ) (idx : ℤ) (f f' : Family)
      → IsInjective subs to
      → from < to
      → child ≡ subs from
      → idx ≡ pred_ℤ from
      → next ≡ from + 1
      → Attached owner subs next to (attach owner f from child idx) f'
      → Attached owner subs from to f f'
  Attached-step from next to child idx f f' inj lt c e nx h =
      let first : NotAmong subs next to (subs from) =
        λ q a b s. absurd (omega (arith, inj q from b lt s, nx)) in
      record {
        filled = λ q a b. elim (ℕ_discrete q from) [
          | yes here ↦ rw here (h.kept from (omega arith) ∙ ground arith)
          | no there ↦ h.filled q (omega arith) b
        ];
        kept = λ q a. h.kept q (omega arith) ∙ ground arith;
        owned = λ q a b. elim (ℕ_discrete q from) [
          | yes here ↦ rw here (h.same_parent (subs from) first ∙ ground arith)
          | no there ↦ h.owned q (omega arith) b
        ];
        placed = λ q a b. elim (ℕ_discrete q from) [
          | yes here ↦ rw here (h.same_idx (subs from) first ∙ ground arith)
          | no there ↦ h.placed q (omega arith) b
        ];
        same_parent =
            λ a n. h.same_parent a (λ q b d. n q (omega arith) d) ∙ ground (arith, n from);
        same_idx = λ a n. h.same_idx a (λ q b d. n q (omega arith) d) ∙ ground (arith, n from);
      }

  -- Writes of keys do not matter.
  pub Attached-key :
      (from to j : ℕ) (k : ℤ) (f f' : Family)
      → Attached owner subs from to (with_key f j k) f'
      → Attached owner subs from to f f'
  Attached-key from to j k f f' h = record {
    filled = h.filled;
    kept = h.kept;
    owned = h.owned;
    placed = h.placed;
    same_parent = h.same_parent;
    same_idx = h.same_idx;
  }
