-- ===== src/Vfs.antt =====
-- The `vfs` file system module: an archive, or a directory, that a URL names. The system, HTTP and
-- the clients of the clouds are parameters.
pub mod Config
pub mod Sources
pub mod Laws
mod Tests
use swim.Prelude.{
  Bool, true, false, Option, none, some, List, [], ◌∷◌, ◌++◌, map, Text, text, is_empty, Result, ok,
  err, if◌then◌else◌, ℕ,
}
use swim.Prelude.Actions
use swim.Prelude.Actions.{Action}
use swim.Caddy.{ConfigError, arg_err, Dispenser, Reader, each_directive, resume}
use swim.Afero.{Afero, trim_slashes}
use swim.Vfs.Config
use swim.Vfs.Config.{Overlay, new_overlay, resolve_placeholders, overlay_string}
use swim.Vfs.Sources.{Host, open_raw_filesystem}

pub record Vfs (F : Type 0) : Type 0 where
  pub overlay : Overlay
  pub a : Option F

module _ {D : Type 0} (dispenser : Dispenser D) where
  abbrev too_many : Overlay → D × Bool → Option (D × Result ConfigError Overlay)
  too_many co (d, true) = some (d, err arg_err)
  too_many co (d, false) = some (d, ok co)

  unfoldable pub vfs_directive : ℕ → Reader D Overlay
  vfs_directive fuel co d =
      resume dispenser (λ c t. too_many c (dispenser.next_arg t))
        (Config.unmarshal_caddyfile dispenser fuel co d)

  -- The overlay is new.
  unfoldable pub unmarshal_caddyfile : ℕ → D → Option (D × Result ConfigError Overlay)
  unfolding vfs_directive
  unmarshal_caddyfile fuel d = each_directive dispenser fuel (vfs_directive fuel) new_overlay d

module _ {S F I E R C G : Type 0} (afero : Afero F I E) (host : Host S F R C G) where
  unfoldable pub open_filesystem : Overlay → Action S Text F
  open_filesystem o s =
      Actions.and_then
        (λ fs t.
          let wd = if is_empty o.work_dir then text "/" else o.work_dir in
          (t, ok (afero.read_only (afero.cache_on_read (afero.base_path fs wd)))))
        (open_raw_filesystem afero host o s)

  unfoldable pub provision : (Text → Text) → Vfs F → Action S Text (Vfs F)
  unfolding open_filesystem
  provision replace_all v s =
      let overlay = resolve_placeholders replace_all v.overlay in
      Actions.caught (λ srv t. (t, ok (record { overlay = overlay; a = some srv })))
        (λ e t. (t, err (text "initialize overlay " ++ overlay_string overlay ++ text ": " ++ e)))
        (open_filesystem overlay s)

  abbrev open_in : Option F → Text → Option E
  open_in none name = none
  open_in (some a) name = afero.open_path (afero.new_iofs a) name

  unfoldable pub open_path : Vfs F → Text → Option E
  open_path v name = open_in v.a (trim_slashes name)
