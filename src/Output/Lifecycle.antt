-- ===== src/Output/Lifecycle.antt =====
-- The life of an output's status under the four marks of `OutputData` (libwallet/src/types.rs): a
-- step relation over these operations, and what no sequence of them can do. The marks have the guards
-- of the code: `lock` has none. What a cancellation writes to the status is not a mark.
use grin_wallet.Prelude.{◌≡◌, ap, refl, Bool, ◌∙◌, true, false, arith}
use grin_wallet.Output.{
  OutputData, OutputStatus, locked, spent, lock, mark_unspent, mark_spent, mark_reverted,
}

-- A mark that follows what the node says of an output.
pub data NodeMark : OutputData → OutputData → Type 0 where
  confirming : {o : OutputData} → NodeMark o (mark_unspent o)
  spending : {o : OutputData} → NodeMark o (mark_spent o)
  reverting : {o : OutputData} → NodeMark o (mark_reverted o)

-- One mark: of the node, or the lock of an output for a transaction.
pub data Mark : OutputData → OutputData → Type 0 where
  by_node : {o p : OutputData} → NodeMark o p → Mark o p
  locking : {o : OutputData} → Mark o (lock o)

-- Any number of steps of one kind, the last one written last.
pub data Many (S : OutputData → OutputData → Type 0) : OutputData → OutputData → Type 0 where
  done : {o : OutputData} → Many S o o
  then : {o p q : OutputData} → S o p → Many S p q → Many S o q

NodeMark-spent : {o p : OutputData} → NodeMark o p → o.status ≡ spent → p ≡ o
unfolding mark_unspent mark_spent mark_reverted
NodeMark-spent {o} confirming s = ground arith
NodeMark-spent {o} spending s = ground arith
NodeMark-spent {o} reverting s = ground arith

abbrev pub is_committed : OutputStatus → Bool
is_committed locked = true
is_committed spent = true
is_committed _ = false

Mark-is_committed :
    {o p : OutputData} → Mark o p → is_committed o.status ≡ true → is_committed p.status ≡ true
unfolding mark_unspent mark_spent mark_reverted lock
Mark-is_committed {o} locking s = refl
Mark-is_committed {o} (by_node confirming) s = ground arith
Mark-is_committed {o} (by_node spending) s = ground arith
Mark-is_committed {o} (by_node reverting) s = ground arith

-- A mark touches the status alone.
Mark-status : {o p : OutputData} → Mark o p → p ≡ record o { status = p.status }
unfolding mark_unspent mark_spent mark_reverted lock
Mark-status {o} locking = refl
Mark-status {o} (by_node confirming) = ground arith
Mark-status {o} (by_node spending) = ground arith
Mark-status {o} (by_node reverting) = ground arith

Many-spent : {o p : OutputData} → Many NodeMark o p → o.status ≡ spent → p ≡ o
Many-spent done s = refl
Many-spent (then m ms) s =
    let e = NodeMark-spent m s in Many-spent ms (ap (λ x. x.status) e ∙ s) ∙ e

-- Any sequence of marks, locks of any output included, changes nothing of an output but its status,
-- and leaves an output that is locked or spent locked or spent. A sequence of the marks that follow
-- the node, without a lock, leaves an output that is spent as it is.
pub Marks-is_committed :
    {o p : OutputData}
    → Many Mark o p
    → (p ≡ record o { status = p.status })
      × (is_committed o.status ≡ true → is_committed p.status ≡ true)
      × (Many NodeMark o p → o.status ≡ spent → p ≡ o)
Marks-is_committed done = (refl, λ s. s, λ ms s. refl)
Marks-is_committed (then {o} {p} {q} m ms) =
    let (same, committed, final) = Marks-is_committed ms in
    (
      same ∙ ap {A = OutputData} (λ x. record x { status = q.status }) (Mark-status m),
      λ s. committed (Mark-is_committed m s),
      Many-spent,
    )
