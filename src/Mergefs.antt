-- ===== src/Mergefs.antt =====
-- The `merge` file system module: layers of which an earlier one hides the files of a later one, and
-- joins its directories.
pub mod Layers
pub mod Tests
use mathlib.Core.List.{reverse}
use swim.Prelude.{
  ℕ, Bool, true, false, Option, none, some, List, [], ◌∷◌, ◌++◌, map, Text, text, text_eq, ◌==◌,
  to_lower, Result, ok, err, ◌>>=◌, if◌then◌else◌,
}
use swim.Prelude.Actions
use swim.Prelude.Actions.{Action}
use swim.Caddy.{ConfigError, syntax_err, errf, Dispenser, Reader, arg, each_directive, block, once}
use swim.Afero.{Afero, trim_slashes}

-- `layers_raw` is what the JSON has, `layers` and `a` are set by `Provision`; the file system that is
-- embedded is `new_iofs` of `a`.
pub record Mergefs (Raw F I : Type 0) : Type 0 where
  pub layers_raw : List Raw
  pub layers : List I
  pub a : Option F

module _ {F I E : Type 0} (afero : Afero F I E) where
  -- `for i := len(layers) - 2; i >= 0; i--`, over the layers from the last but one on
  unfoldable pub overlay_all : F → List F → F
  overlay_all merged [] = merged
  overlay_all merged (layer ∷ layers) = overlay_all (afero.copy_on_write merged layer) layers

  -- `none`: the index of the last layer panics.
  abbrev pub union_from : List F → Option F
  union_from [] = none
  union_from (base ∷ layers) = some (afero.read_only (overlay_all base layers))

  unfoldable pub build_afero : List F → Option F
  unfolding overlay_all
  build_afero layers = union_from (reverse layers)

  abbrev pub built : {Raw : Type 0} → Mergefs Raw F I → Option F → Option (Mergefs Raw F I)
  built s none = none
  built s (some a) = some (record s { a = some a })

  unfoldable pub build_layers : {Raw : Type 0} → Mergefs Raw F I → List I → Option (Mergefs Raw F I)
  unfolding build_afero
  build_layers s layers =
      built (record s { layers = layers }) (build_afero (map afero.from_iofs layers))

  unfoldable pub build_afero_layers :
      {Raw : Type 0} → Mergefs Raw F I → List F → Option (Mergefs Raw F I)
  unfolding build_afero
  build_afero_layers s layers =
      built (record s { layers = map afero.new_iofs layers }) (build_afero layers)

  abbrev pub open_in : Option F → Text → Option E
  open_in none name = none
  open_in (some a) name = afero.open_path (afero.new_iofs a) name

  unfoldable pub open_path : {Raw : Type 0} → Mergefs Raw F I → Text → Option E
  open_path s name = open_in s.a (trim_slashes name)

  -- Modules `M` are loaded by Caddy; some of them are file systems.
  module _ {Raw M : Type 0} (load_modules : List Raw → Result Text (List M))
      (as_fs : M → Option I) where
    abbrev appended : List I → Option I → Result Text (List I)
    appended layers none = err (text "mergefs: layer module is not fs.FS")
    appended layers (some fsys) = ok (layers ++ fsys ∷ [])

    unfoldable pub append_layers : List I → List M → Result Text (List I)
    append_layers layers [] = ok layers
    append_layers layers (mod_ ∷ mods) = do
      more ← appended layers (as_fs mod_)
      append_layers more mods

    abbrev loaded : Result Text (List M) → Result Text (List M)
    loaded (ok mods) = ok mods
    loaded (err e) = err (text "loading mergefs layers: " ++ e)

    abbrev pub load_raw : List Raw → Result Text (List M)
    load_raw [] = err (text "mergefs: at least one layer is required")
    load_raw (raw ∷ raws) = loaded (load_modules (raw ∷ raws))

    -- With a panic as `none` of the result
    unfoldable pub provision : Mergefs Raw F I → Result Text (Option (Mergefs Raw F I))
    unfolding append_layers build_layers
    provision s = do
      mods ← load_raw s.layers_raw
      layers ← append_layers s.layers mods
      ok (build_layers s layers)

  module _ {Raw M D : Type 0} (dispenser : Dispenser D)
      (unmarshal_module : Text → Action D ConfigError M) (as_fs : M → Option I)
      (json_object : I → Text → Raw) where
    -- The message of the source names the module's type too.
    abbrev with_layer : Mergefs Raw F I → Text → Option I → Action D ConfigError (Mergefs Raw F I)
    with_layer s name none d = (
      d,
      err (
          errf (
            text "module caddy.fs."
            ++ name
            ++ text " is not a supported file system implementation")),
    )
    with_layer s name (some fsys) d =
        (d, ok (record s { layers_raw = s.layers_raw ++ json_object fsys name ∷ [] }))

    unfoldable pub merge_option : Mergefs Raw F I → Action D ConfigError (Mergefs Raw F I)
    merge_option s d =
        let key = dispenser.val d in
        if to_lower key == text "layer"
        then Actions.and_then
            (λ name v.
              Actions.and_then (λ unm. with_layer s name (as_fs unm))
                (unmarshal_module (text "caddy.fs." ++ name) v))
            (arg dispenser d)
        else (d, err (syntax_err (text "expected 'layer', got '" ++ key ++ text "'")))

    unfoldable pub unmarshal_caddyfile : ℕ → Reader D (Mergefs Raw F I)
    unfolding merge_option
    unmarshal_caddyfile fuel =
        each_directive dispenser fuel (block dispenser fuel (once dispenser merge_option))
