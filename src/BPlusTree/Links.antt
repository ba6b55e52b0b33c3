-- ===== src/BPlusTree/Links.antt =====
-- pmem_impl/bplustree.h: the intrusive doubly linked lists. The `link` of a node has the address of
-- the node (`list_entry` is the identity), and the list heads of the tree have their own.
pub mod Laws
pub mod Leaves
use open_hikv.Base.{ℕ, Bool, ◌==◌, upd}

pub record Links : Type 0 where
  pub prev : ℕ → ℕ
  pub next : ℕ → ℕ

abbrev pub set_prev : Links → ℕ → ℕ → Links
set_prev l a b = record l { prev = upd l.prev a b }

abbrev pub set_next : Links → ℕ → ℕ → Links
set_next l a b = record l { next = upd l.next a b }

unfoldable pub list_init : Links → ℕ → Links
list_init l link = set_next (set_prev l link link) link link

-- `__list_add`
unfoldable pub list_add_between : Links → ℕ → ℕ → ℕ → Links
list_add_between l link prev next =
    set_next (set_prev (set_prev (set_next l link next) link prev) next link) prev link

-- `__list_del`
unfoldable pub list_unlink : Links → ℕ → ℕ → Links
list_unlink l prev next = set_prev (set_next l prev next) next prev

unfoldable pub list_add : Links → ℕ → ℕ → Links
unfolding list_add_between
list_add l link prev = list_add_between l link prev (l.next prev)

unfoldable pub list_add_tail : Links → ℕ → ℕ → Links
unfolding list_add_between
list_add_tail l link head = list_add_between l link (l.prev head) head

unfoldable pub list_del : Links → ℕ → Links
unfolding list_unlink list_init
list_del l link = list_init (list_unlink l (l.prev link) (l.next link)) link

unfoldable pub list_is_first : Links → ℕ → ℕ → Bool
list_is_first l link head = l.prev link == head

unfoldable pub list_is_last : Links → ℕ → ℕ → Bool
list_is_last l link head = l.next link == head
