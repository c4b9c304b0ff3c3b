-- ===== src/Caddy/Lines.antt =====
-- A file of one directive and a block of lines, each an option and one argument, as a dispenser
-- shows it.
use swim.Prelude.{ℕ, ◌≡◌, true, false, List, [], ◌∷◌, Text}
use swim.Caddy.{Dispenser}

module _ {D : Type 0} (dispenser : Dispenser D) where
  -- The lines in front of a cursor in a block, up to the cursor behind the block.
  pub data Lines (nesting : ℕ) : List (Text × Text) → D → D → Type 0 where
    last : (d e : D) → dispenser.next_block nesting d ≡ (e, false) → Lines nesting [] d e
    line :
        (key v : Text) (ls : List (Text × Text)) (d d1 d2 e : D)
        → dispenser.next_block nesting d ≡ (d1, true)
        → dispenser.val d1 ≡ key
        → dispenser.next_arg d1 ≡ (d2, true)
        → dispenser.val d2 ≡ v
        → Lines nesting ls d2 e
        → Lines nesting ((key, v) ∷ ls) d e

  pub record File (ls : List (Text × Text)) (d : D) : Type 0 where
    pub start : D
    pub stop : D
    pub finish : D
    pub found : dispenser.next d ≡ (start, true)
    pub lines : Lines (dispenser.nesting start) ls start stop
    pub ends : dispenser.next stop ≡ (finish, false)
