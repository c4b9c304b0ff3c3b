-- ===== src/Localfs.antt =====
-- The `localfs` file system module: a directory of the machine.
use swim.Prelude.{
  Bool, true, false, Option, none, some, ◌++◌, Text, text, text_eq, ◌==◌, to_lower, Result, ok, err,
  if◌then◌else◌, ℕ,
}
use swim.Prelude.Actions
use swim.Prelude.Actions.{Action}
use swim.Caddy.{ConfigError, arg_err, syntax_err, Dispenser, arg, optional_arg, block, once}
use swim.Afero.{Afero, trim_slashes}

pub record Localfs (F : Type 0) : Type 0 where
  pub root : Text
  pub a : Option F

module _ {F D : Type 0} (dispenser : Dispenser D) where
  abbrev set_root : Localfs F → Text → Localfs F
  set_root co v = record co { root = v }

  unfoldable pub localfs_option : Localfs F → Action D ConfigError (Localfs F)
  localfs_option co d =
      let key = dispenser.val d in
      if to_lower key == text "root"
      then Actions.and_then (λ v t. (t, ok (set_root co v))) (arg dispenser d)
      else (d, err (syntax_err (text "invalid localfs option: " ++ key)))

  abbrev directive : ℕ → Localfs F → D × Bool → Option (D × Result ConfigError (Localfs F))
  directive fuel co (d, false) = some (d, err arg_err)
  directive fuel co (d, true) =
      let (t, c) = optional_arg dispenser set_root co d in
      block dispenser fuel (once dispenser localfs_option) c t

  unfoldable pub unmarshal_caddyfile :
      ℕ → Localfs F → D → Option (D × Result ConfigError (Localfs F))
  unfolding localfs_option
  unmarshal_caddyfile fuel co d = directive fuel co (dispenser.next d)

module _ {F I E : Type 0} (afero : Afero F I E) where
  -- Placeholders in the root are replaced.
  unfoldable pub provision : (Text → Text) → Localfs F → Localfs F
  provision replace_all s =
      let root = replace_all s.root in
      record { root = root; a = some (afero.base_path afero.os_fs root) }

  abbrev open_in : Option F → Text → Option E
  open_in none name = none
  open_in (some a) name = afero.open_path (afero.new_iofs a) name

  unfoldable pub open_path : Localfs F → Text → Option E
  open_path s name = open_in s.a (trim_slashes name)
