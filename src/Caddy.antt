-- ===== src/Caddy.antt =====
-- What the modules use of Caddy's `caddyfile.Dispenser`, a cursor over the tokens of a Caddyfile,
-- which is a parameter: a record of its calls on a type of cursors. The loops `for d.Next()` and
-- `for d.NextBlock(nesting)` run on fuel; `none` is a loop that is not done when the fuel is.
pub mod Loops
pub mod Lines
pub mod Script
use swim.Prelude.{ℕ, zero, suc, Bool, true, false, Option, none, some, Text, Result, ok, err}
use swim.Prelude.Actions.{Action}

-- `d.ArgErr()`, `d.SyntaxErr(expected)`, `d.Errf(format, …)` and errors of other packages.
pub data ConfigError : Type 0 where
  arg_err : ConfigError
  syntax_err errf other_err : Text → ConfigError

pub record Dispenser (D : Type 0) : Type 0 where
  pub next : D → D × Bool
  pub next_arg : D → D × Bool
  pub nesting : D → ℕ
  pub next_block : ℕ → D → D × Bool
  pub val : D → Text

-- A loop over a configuration that is read piece by piece.
abbrev pub Reader : Type 0 → Type 0 → Type 0
Reader D A = A → D → Option (D × Result ConfigError A)

module _ {D : Type 0} (dispenser : Dispenser D) where
  abbrev pub arg_found : D × Bool → D × Result ConfigError Text
  arg_found (d, true) = (d, ok (dispenser.val d))
  arg_found (d, false) = (d, err arg_err)

  -- `if !d.NextArg() { return d.ArgErr() }` and `d.Val()`; `d.Args` of one target is the same.
  unfoldable pub arg : Action D ConfigError Text
  arg d = arg_found (dispenser.next_arg d)

  -- `if d.NextArg() { … d.Val() … }`
  abbrev pub optional_found : {A : Type 0} → (A → Text → A) → A → D × Bool → D × A
  optional_found f a (d, true) = (d, f a (dispenser.val d))
  optional_found f a (d, false) = (d, a)

  unfoldable pub optional_arg : {A : Type 0} → (A → Text → A) → A → D → D × A
  optional_arg f a d = optional_found f a (dispenser.next_arg d)

  module _ {A : Type 0} where
    unfoldable pub resume :
        Reader D A → Option (D × Result ConfigError A) → Option (D × Result ConfigError A)
    resume rest none = none
    resume rest (some (d, ok a)) = rest a d
    resume rest (some (d, err e)) = some (d, err e)

    unfoldable pub turn : Reader D A → Reader D A → A → D × Bool → Option (D × Result ConfigError A)
    unfolding resume
    turn body rest a (d, true) = resume rest (body a d)
    turn body rest a (d, false) = some (d, ok a)

    -- `for d.Next() { body }`
    unfoldable pub each_directive : ℕ → Reader D A → Reader D A
    each_directive zero body a d = none
    each_directive (suc fuel) body a d =
        let rest = each_directive fuel body in turn body rest a (dispenser.next d)

    unfoldable pub each_line : ℕ → ℕ → Reader D A → Reader D A
    each_line nesting zero body a d = none
    each_line nesting (suc fuel) body a d =
        let rest = each_line nesting fuel body in turn body rest a (dispenser.next_block nesting d)

    -- `for nesting := d.Nesting(); d.NextBlock(nesting); { body }`
    unfoldable pub block : ℕ → Reader D A → Reader D A
    unfolding each_line
    block fuel body a d = each_line (dispenser.nesting d) fuel body a d

  -- A piece that reads without a loop.
  abbrev pub once : {A : Type 0} → (A → Action D ConfigError A) → Reader D A
  once f a d = some (f a d)
