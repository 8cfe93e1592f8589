-- ===== src/Registry.antt =====
-- The singly linked lists of protocol/protocol.c and functions/function_manager.c. A node is a static
-- structure, named by a number here; the memory of the `ptNext` fields is a function on nodes.
-- `registerProtocol` and `registerCmd` hold the same text over two lists. Each walk has fuel, one
-- round for each node that it comes to; `none` means that the fuel ran out.
pub mod Chains
pub mod Lookup
use instruction_parser.Prelude.{
  ℕ, zero, suc, ℤ, pos, Option, none, some, ◌>>=◌, ◌==◌, if◌then◌else◌,
}

-- The head pointer and the `ptNext` fields.
pub record Links : Type 0 where
  pub head : Option ℕ
  pub next : ℕ → Option ℕ

-- `p->ptNext = q`
unfoldable pub set_next : (ℕ → Option ℕ) → ℕ → Option ℕ → ℕ → Option ℕ
set_next next p q n = if n == p then q else next n

-- `while (ptTmp->ptNext) ptTmp = ptTmp->ptNext;`
unfoldable pub last_node : ℕ → (ℕ → Option ℕ) → ℕ → Option ℕ
last_node zero next p = none
last_node (suc fuel) next p = elim (next p) [ none ↦ some p | some q ↦ last_node fuel next q ]

unfoldable pub append_node : ℕ → Links → ℕ → ℕ → Option (ℤ × Links)
unfolding set_next
append_node fuel l h p = do
  t ← last_node fuel l.next h
  some (pos 0, record l { next = set_next (set_next l.next t (some p)) p none })

-- `registerProtocol` and `registerCmd`, on the node `p`.
unfoldable pub register : ℕ → Links → ℕ → Option (ℤ × Links)
unfolding set_next
register fuel l p = elim l.head [
  | none ↦ some (pos 0, record { head = some p; next = set_next l.next p none })
  | some h ↦ append_node fuel l h p
]
