-- ===== src/Mergefs/Layers.antt =====
-- What a merged file system has at a path: what its first layer with that path has, where
-- directories are joined.
use mathlib.Core.List.{reverse, reverse-cons, reverse-reverse, append-nil, append_assoc}
use mathlib.Core.Option.{some-injective}
use swim.Prelude.{
  ◌≡◌, ◌≢◌, arith, refl, sym, ap, ◌∙◌, Option, none, some, List, [], ◌∷◌, ◌++◌, map, Text, Result,
  ok, ◌>>=◌, if◌then◌else◌,
}
use swim.Afero.{Afero, Documented, merged, trim_slashes}
use swim.Mergefs.{
  Mergefs, overlay_all, union_from, build_afero, built, build_layers, append_layers, load_raw,
  provision, open_path,
}

module _ {F I E : Type 0} (afero : Afero F I E) where
  -- What the layers have at the path, the first over the others, over what a base has.
  abbrev over : Option E → List F → Text → Option E
  over base [] name = base
  over base (layer ∷ layers) name = merged afero (afero.look layer name) (over base layers name)

  abbrev pub merged_open : List I → Text → Option E
  merged_open [] name = none
  merged_open (layer ∷ layers) name =
      merged afero (afero.open_path layer name) (merged_open layers name)

  module _ (documented : Documented afero) where
    merged-none : (x : Option E) → merged afero x none ≡ x
    merged-none none = refl
    merged-none (some e) = refl

    over-append :
        (base : Option E) (xs ys : List F) (name : Text)
        → over base (xs ++ ys) name ≡ over (over base ys name) xs name
    over-append base [] ys name = refl
    over-append base (x ∷ xs) ys name =
        ap (merged afero (afero.look x name)) (over-append base xs ys name)

    look-overlay_all :
        (base : F) (layers : List F) (name : Text)
        → afero.look (overlay_all afero base layers) name
          ≡ over (afero.look base name) (reverse layers) name
    unfolding overlay_all
    look-overlay_all base [] name = refl
    look-overlay_all base (layer ∷ layers) name =
        look-overlay_all (afero.copy_on_write base layer) layers name
        ∙ ap (λ o. over o (reverse layers) name) (documented.overlay base layer name)
        ∙ sym (over-append (afero.look base name) (reverse layers) (layer ∷ []) name)
        ∙ ap (λ l. over (afero.look base name) l name) (sym (reverse-cons layer layers))

    union-over :
        (layers : List F) (f : F) (name : Text)
        → union_from afero layers ≡ some f
        → afero.look f name ≡ over none (reverse layers) name
    union-over [] f name e = absurd (cc)
    union-over (base ∷ layers) f name e =
        ap (λ g. afero.look g name) (sym (some-injective _ f e))
        ∙ documented.reads (overlay_all afero base layers) name
        ∙ look-overlay_all base layers name
        ∙ ap (λ o. over o (reverse layers) name) (sym (merged-none (afero.look base name)))
        ∙ sym (over-append none (reverse layers) (base ∷ []) name)
        ∙ ap (λ l. over none l name) (sym (reverse-cons base layers))

    over-map :
        (layers : List I) (name : Text)
        → over none (map afero.from_iofs layers) name ≡ merged_open layers name
    over-map [] name = refl
    over-map (i ∷ layers) name =
        ap (λ o. merged afero o (over none (map afero.from_iofs layers) name))
          (documented.wraps i name)
        ∙ ap (merged afero (afero.open_path i name)) (over-map layers name)

    build_afero-over :
        (layers : List F) (f : F) (name : Text)
        → build_afero afero layers ≡ some f
        → afero.look f name ≡ over none layers name
    unfolding build_afero
    build_afero-over layers f name e =
        union-over (reverse layers) f name e ∙ ap (λ l. over none l name) (reverse-reverse layers)

    module _ {Raw M : Type 0} (load_modules : List Raw → Result Text (List M))
        (as_fs : M → Option I) where
      append-append_layers :
          (done : List I) (mods : List M) (layers : List I)
          → map as_fs mods ≡ map some layers
          → append_layers afero load_modules as_fs done mods ≡ ok (done ++ layers)
      unfolding append_layers
      append-append_layers done [] [] e = ap ok (sym (append-nil done))
      append-append_layers done [] (i ∷ layers) e = absurd (ground arith)
      append-append_layers done (m ∷ mods) [] e = absurd (ground arith)
      append-append_layers done (m ∷ mods) (i ∷ layers) e =
          let head : as_fs m ≡ some i = ground (arith, e) in
          let tail : map as_fs mods ≡ map some layers = ground (arith, e) in
          rw head (
            append-append_layers (done ++ i ∷ []) mods layers tail
            ∙ ap ok (append_assoc done (i ∷ []) layers))

      union_from-append :
          (xs : List F) (base : F) → (f : F) × (union_from afero (xs ++ base ∷ []) ≡ some f)
      union_from-append [] base = (_, refl)
      union_from-append (x ∷ xs) base = (_, refl)

      build_afero-some :
          (layer : F) (layers : List F) → (f : F) × (build_afero afero (layer ∷ layers) ≡ some f)
      unfolding build_afero
      build_afero-some layer layers =
          let (f, e) = union_from-append (reverse layers) layer in
          (f, ap (union_from afero) (reverse-cons layer layers) ∙ e)

      load_raw-ok :
          (raws : List Raw) (mods : List M)
          → raws ≢ []
          → load_modules raws ≡ ok mods
          → load_raw afero load_modules as_fs raws ≡ ok mods
      load_raw-ok [] mods some_raw e = absurd (some_raw refl)
      load_raw-ok (raw ∷ raws) mods some_raw e = rw e refl

      abbrev pub Opens : List I → Mergefs Raw F I → Type 0
      Opens layers t =
          (name : Text)
          → open_path afero t name ≡ (
              if afero.valid_path (trim_slashes name)
              then merged_open layers (trim_slashes name)
              else none)

      built-Opens :
          (s : Mergefs Raw F I) (layers : List I) (f : F)
          → build_afero afero (map afero.from_iofs layers) ≡ some f
          → Opens layers (record s { layers = layers; a = some f })
      unfolding open_path
      built-Opens s layers f e name =
          documented.opens f (trim_slashes name)
          ∙ ap (λ o. if afero.valid_path (trim_slashes name) then o else none)
              (build_afero-over (map afero.from_iofs layers) f (trim_slashes name) e
                ∙ over-map layers (trim_slashes name))

      -- Where Caddy loads the layers, at least one, and each is a file system, `Provision` gives no
      -- error and does not panic, and what the merged file system opens at a path, without the
      -- slashes around it, is, if the path is valid, what the first layer with that path opens there,
      -- joined, where that is a directory, with what the layers behind it come to at the path, if
      -- that is a directory too.
      pub provision-Opens :
          (s : Mergefs Raw F I) (mods : List M) (layer : I) (layers : List I)
          → s.layers ≡ []
          → s.layers_raw ≢ []
          → load_modules s.layers_raw ≡ ok mods
          → map as_fs mods ≡ map some (layer ∷ layers)
          → (t : Mergefs Raw F I) × (provision afero load_modules as_fs s ≡ ok (some t))
            × Opens (layer ∷ layers) t
      unfolding provision build_layers
      provision-Opens s mods layer layers fresh raws load all_fs =
          let (f, is) = build_afero-some (afero.from_iofs layer) (map afero.from_iofs layers) in
          let appended_all =
            ap (λ l. append_layers afero load_modules as_fs l mods) fresh
            ∙ append-append_layers [] mods (layer ∷ layers) all_fs in
          let rest : List I → Result Text (Option (Mergefs Raw F I)) =
            (λ l. ok (build_layers afero s l)) in
          let all : List M → Result Text (Option (Mergefs Raw F I)) =
            (λ l. append_layers afero load_modules as_fs s.layers l >>= rest) in
          (
            record s { layers = layer ∷ layers; a = some f },
            ap (λ r. r >>= all) (load_raw-ok s.layers_raw mods raws load)
                ∙ ap (λ r. r >>= rest) appended_all
                ∙ ap (λ o. ok (built afero (record s { layers = layer ∷ layers }) o)) is,
            built-Opens s (layer ∷ layers) f is,
          )
