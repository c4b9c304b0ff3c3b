-- ===== src/Vfs/Config.antt =====
-- The options of a `vfs` file system, config.go, and the placeholders in them.
use swim.Prelude.{
  ℕ, [], ◌∷◌, ◌++◌, map, Text, text, text_eq, ◌==◌, to_lower, ok, err, if◌then◌else◌,
}
use swim.Prelude.Actions
use swim.Prelude.Actions.{Action}
use swim.Caddy.{ConfigError, syntax_err, Dispenser, Reader, arg, optional_arg, block, once}
use swim.Http
use swim.Http.{Header}

pub record Overlay : Type 0 where
  pub root : Text
  pub work_dir : Text
  pub file_type : Text
  pub headers : Header

abbrev pub new_overlay : Overlay
new_overlay = record { root = []; work_dir = []; file_type = []; headers = [] }

unfoldable pub overlay_string : Overlay → Text
overlay_string co =
    text "root=" ++ co.root ++ text " home=" ++ co.work_dir ++ text " type=" ++ co.file_type

abbrev set_root : Overlay → Text → Overlay
set_root co v = record co { root = v }

abbrev set_work_dir : Overlay → Text → Overlay
set_work_dir co v = record co { work_dir = v }

abbrev set_file_type : Overlay → Text → Overlay
set_file_type co v = record co { file_type = v }

module _ {D : Type 0} (dispenser : Dispenser D) where
  -- A case of one argument
  abbrev setting : (Overlay → Text → Overlay) → Overlay → Action D ConfigError Overlay
  setting f co d = Actions.and_then (λ v t. (t, ok (f co v))) (arg dispenser d)

  abbrev add_header : Overlay → Action D ConfigError Overlay
  add_header co d =
      Actions.and_then
        (λ k t.
          Actions.and_then (λ v u. (u, ok (record co { headers = Http.add co.headers k v })))
            (arg dispenser t))
        (arg dispenser d)

  abbrev pub option_of : Text → Text → Overlay → Action D ConfigError Overlay
  option_of key v_key co d =
      if key == text "header"
      then add_header co d
      else if key == text "workdir"
      then setting set_work_dir co d
      else if key == text "type"
      then setting set_file_type co d
      else if key == text "root"
      then setting set_root co d
      else (d, err (syntax_err (text "invalid overlay option: " ++ v_key)))

  unfoldable pub overlay_option : Overlay → Action D ConfigError Overlay
  overlay_option co d = let v_key = dispenser.val d in option_of (to_lower v_key) v_key co d

  unfoldable pub unmarshal_caddyfile : ℕ → Reader D Overlay
  unfolding overlay_option
  unmarshal_caddyfile fuel co d =
      let (d1, co1) = optional_arg dispenser set_root co d in
      let (d2, co2) = optional_arg dispenser set_work_dir co1 d1 in
      let (d3, co3) = optional_arg dispenser set_file_type co2 d2 in
      block dispenser fuel (once dispenser overlay_option) co3 d3

abbrev replace_values : (Text → Text) → Header → Header
replace_values replace_all [] = []
replace_values replace_all ((k, v) ∷ h) = (k, map replace_all v) ∷ replace_values replace_all h

unfoldable pub resolve_placeholders : (Text → Text) → Overlay → Overlay
resolve_placeholders replace_all o = record {
  headers = replace_values replace_all o.headers;
  work_dir = replace_all o.work_dir;
  file_type = replace_all o.file_type;
  root = replace_all o.root;
}
