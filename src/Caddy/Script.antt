-- ===== src/Caddy/Script.antt =====
-- A dispenser over a list of tokens that are told apart already, at which the theorems are tried.
use swim.Prelude.{ℕ, ◌<◌, ◌≤◌, ◌≡◌, arith, Bool, true, false, List, [], ◌∷◌, Text, length}
use swim.Caddy.{Dispenser}
use swim.Caddy.Loops.{Forward}

-- A directive, a word behind another on its line, and the first word of a line of a block.
pub data Token : Type 0 where
  directive word entry : Text → Token

-- The token that is read, and those in front.
abbrev pub Cursor : Type 0
Cursor = Text × List Token

abbrev next : Cursor → Cursor × Bool
next (c, directive t ∷ ts) = ((t, ts), true)
next (c, word t ∷ ts) = ((c, word t ∷ ts), false)
next (c, entry t ∷ ts) = ((c, entry t ∷ ts), false)
next (c, []) = ((c, []), false)

abbrev next_arg : Cursor → Cursor × Bool
next_arg (c, word t ∷ ts) = ((t, ts), true)
next_arg (c, directive t ∷ ts) = ((c, directive t ∷ ts), false)
next_arg (c, entry t ∷ ts) = ((c, entry t ∷ ts), false)
next_arg (c, []) = ((c, []), false)

abbrev next_block : ℕ → Cursor → Cursor × Bool
next_block n (c, entry t ∷ ts) = ((t, ts), true)
next_block n (c, directive t ∷ ts) = ((c, directive t ∷ ts), false)
next_block n (c, word t ∷ ts) = ((c, word t ∷ ts), false)
next_block n (c, []) = ((c, []), false)

abbrev pub script : Dispenser Cursor
script = record {
  next = next;
  next_arg = next_arg;
  nesting = λ _. 0;
  next_block = next_block;
  val = λ (c, ts). c;
}

abbrev left : Cursor → ℕ
left (c, ts) = length ts

pub next_on : (d : Cursor) → (next d).1 ≡ true → left (next d).0 < left d
next_on (c, directive t ∷ ts) h = omega arith
next_on (c, word t ∷ ts) h = absurd (cc)
next_on (c, entry t ∷ ts) h = absurd (cc)
next_on (c, []) h = absurd (cc)

pub next_stays : (d : Cursor) → left (next d).0 ≤ left d
next_stays (c, directive t ∷ ts) = omega arith
next_stays (c, word t ∷ ts) = omega arith
next_stays (c, entry t ∷ ts) = omega arith
next_stays (c, []) = omega arith

pub arg_stays : (d : Cursor) → left (next_arg d).0 ≤ left d
arg_stays (c, directive t ∷ ts) = omega arith
arg_stays (c, word t ∷ ts) = omega arith
arg_stays (c, entry t ∷ ts) = omega arith
arg_stays (c, []) = omega arith

pub line_on : (n : ℕ) (d : Cursor) → (next_block n d).1 ≡ true → left (next_block n d).0 < left d
line_on n (c, directive t ∷ ts) h = absurd (cc)
line_on n (c, word t ∷ ts) h = absurd (cc)
line_on n (c, entry t ∷ ts) h = omega arith
line_on n (c, []) h = absurd (cc)

pub line_stays : (n : ℕ) (d : Cursor) → left (next_block n d).0 ≤ left d
line_stays n (c, directive t ∷ ts) = omega arith
line_stays n (c, word t ∷ ts) = omega arith
line_stays n (c, entry t ∷ ts) = omega arith
line_stays n (c, []) = omega arith

abbrev pub script-Forward : Forward script
script-Forward = record {
  left = left;
  next_on = next_on;
  next_stays = next_stays;
  arg_stays = arg_stays;
  line_on = line_on;
  line_stays = line_stays;
}
