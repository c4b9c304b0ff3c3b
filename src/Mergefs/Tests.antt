-- ===== src/Mergefs/Tests.antt =====
-- Two layers, of which the first has a file.
use swim.Prelude.{
  ℕ, suc, ◌+◌, ◌%◌, Bool, nat_eq, ◌≡◌, refl, Option, none, some, List, [], ◌∷◌, Text, text, text_eq,
  ◌==◌, Result, ok, if◌then◌else◌, is_empty, not, arith,
}
use swim.Afero.{Afero, Documented, merged}
use swim.Mergefs.{Mergefs, provision}
use swim.Mergefs.Layers.{Opens, provision-Opens}

abbrev odd : ℕ → Bool
odd n = n % 2 == 1

-- A file system is what it has at each path.
abbrev pub Files : Type 0
Files = Text → Option ℕ

-- A directory is an odd number, and two that are joined are the sum and one more.
abbrev joined : Option ℕ → Option ℕ → Option ℕ
joined none o = o
joined (some e) none = some e
joined (some e) (some b) = some (if odd e then if odd b then suc (b + e) else e else e)

abbrev pub afero : Afero Files Files ℕ
afero = record {
  from_iofs = λ i. i;
  new_iofs = λ f name. if not (is_empty name) then f name else none;
  copy_on_write = λ base layer name. joined (layer name) (base name);
  read_only = λ f. f;
  base_path = λ f dir. f;
  cache_on_read = λ f. f;
  os_fs = λ name. none;
  look = λ f. f;
  open_path = λ i. i;
  valid_path = λ name. not (is_empty name);
  is_dir = odd;
  union_file = λ base layer. suc (base + layer);
}

joined_lem : (l b : Option ℕ) → joined l b ≡ merged afero l b
joined_lem none b = refl
joined_lem (some e) none = refl
joined_lem (some e) (some b) = refl

documented : Documented afero
documented = record {
  overlay = λ base layer name. joined_lem (layer name) (base name);
  reads = λ f name. refl;
  opens = λ f name. refl;
  wraps = λ i name. refl;
}

abbrev top : Files
top name = if name == text "a" then some 1 else none

abbrev base : Files
base name = some 3

abbrev raw : Mergefs ℕ Files Files
raw = record { layers_raw = 1 ∷ 2 ∷ []; layers = []; a = none }

abbrev load : List ℕ → Result Text (List Files)
load raws = ok (top ∷ base ∷ [])

provision-Opens_example :
    (t : Mergefs ℕ Files Files) × (provision afero load some raw ≡ ok (some t))
    × Opens afero documented load some (top ∷ base ∷ []) t
provision-Opens_example =
    provision-Opens afero documented load some raw (top ∷ base ∷ []) top (base ∷ []) refl
      (λ e. ground arith) refl refl
