-- ===== src/Board/Custody.antt =====
-- What follows from the moves of the board, for the databases that the processes reach.
use service_courier_platform.Prelude.{
  none-some, ℤ, ◌≡◌, ◌∙◌, sym, ap, refl, String, false, ◌==◌, eq_iff, Option, none, some, ◌≢◌,
  Bool-cases, inl, inr,
}
use service_courier_platform.Domain.{Time}
use service_courier_platform.Database.{Db}
use service_courier_platform.System.{Step, Reachable, begin, next}
use service_courier_platform.System.Reachability.{IsSound, Step-IsSound, Reachable-IsSound}
use service_courier_platform.Board.{
  Board, board, SameAs, held_by, Request, unassigning, Move, stays, takes, gives_back, finishes,
  lapses, joins, changes,
}
use service_courier_platform.Board.Refinement.{request_of, Step-Move}

-- The boards that moves reach from the empty one.
pub data Play : Board → Type 0 where
  opens : {b : Board} → SameAs b.status_of (λ i. none) → SameAs b.holder_of (λ o. none) → Play b
  plays : {b c : Board} {r : Request} → Play b → Move b c r → Play c

-- The processes refine the board: every reachable database stands for a board that the allowed
-- moves reach from the empty one.
pub Reachable-Play : {db : Db} → Reachable db → Play (board db)
Reachable-Play begin = opens (λ i. refl) (λ o. refl)
Reachable-Play (next r s) = plays (Reachable-Play r) (Step-Move s (Reachable-IsSound r))

-- A write to the holders leaves the other orders alone.
held_elsewhere :
    (b c : Board) (order o : String) (h : Option (ℤ × Time))
    → SameAs c.holder_of (held_by order h b.holder_of)
    → (o == order) ≡ false
    → c.holder_of o ≡ b.holder_of o
held_elsewhere b c order o h f e = f o ∙ rw e refl

-- A move that is not asked to take an order back leaves it with its holder.
Move-holds :
    {b c : Board} {r : Request} {h : ℤ × Time} (o : String)
    → Move b c r
    → r ≢ unassigning o
    → b.holder_of o ≡ some h
    → c.holder_of o ≡ some h
Move-holds o (stays e f) n k = f o ∙ k
Move-holds o (finishes order j due q e f) n k = f o ∙ k
Move-holds o (lapses now e f) n k = f o ∙ k
Move-holds o (joins j s q e f) n k = f o ∙ k
Move-holds o (changes j old new q e f) n k = f o ∙ k
Move-holds {b} {c} o (takes now order j late l q a free e f) n k = elim (Bool-cases (o == order)) [
  | inr other ↦ held_elsewhere b c order o _ f other ∙ k
  | inl same ↦ absurd (none-some (sym free ∙ ap b.holder_of (sym ((eq_iff o order).0 same)) ∙ k))
]
Move-holds {b} {c} o (gives_back order j late q e f) n k = elim (Bool-cases (o == order)) [
  | inr other ↦ held_elsewhere b c order o none f other ∙ k
  | inl same ↦ absurd (n (ap unassigning (sym ((eq_iff o order).0 same))))
]

-- A history in which nobody asks for the order to be taken back.
pub data Undisturbed (o : String) (db : Db) : Db → Type 0 where
  at_first : Undisturbed o db db
  later :
      {mid after : Db}
      → Undisturbed o db mid
      → (s : Step mid after) → request_of s ≢ unassigning o
      → Undisturbed o db after

Undisturbed-IsSound :
    {o : String} {db after : Db} → Undisturbed o db after → IsSound db → IsSound after
Undisturbed-IsSound at_first s = s
Undisturbed-IsSound (later u st n) s = Step-IsSound st (Undisturbed-IsSound u s)

-- From a sound database on, and until somebody asks for it to be taken back, an order that a
-- courier holds stays with that courier and keeps its deadline: whatever other requests, events,
-- ticks and failures come, in any order.
pub Undisturbed-holds :
    {o : String} {db after : Db} {h : ℤ × Time}
    → IsSound db
    → Undisturbed o db after
    → (board db).holder_of o ≡ some h
    → (board after).holder_of o ≡ some h
Undisturbed-holds s at_first k = k
Undisturbed-holds {o} s (later u st n) k =
    Move-holds o (Step-Move st (Undisturbed-IsSound u s)) n (Undisturbed-holds s u k)
