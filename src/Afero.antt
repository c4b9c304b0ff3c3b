-- ===== src/Afero.antt =====
-- What the file system modules use of the afero package and of io/fs, which are parameters: `F` is
-- `afero.Fs`, `I` is `fs.FS` and `E` is what stands at a path, a file or a directory.
use swim.Prelude.{◌≡◌, Bool, Option, none, some, Text, nat_eq, ◌==◌, trim_both, if◌then◌else◌}

pub record Afero (F I E : Type 0) : Type 0 where
  pub from_iofs : I → F
  pub new_iofs : F → I
  pub copy_on_write : F → F → F
  pub read_only : F → F
  pub base_path : F → Text → F
  pub cache_on_read : F → F
  pub os_fs : F
  pub look : F → Text → Option E
  pub open_path : I → Text → Option E
  pub valid_path : Text → Bool
  pub is_dir : E → Bool
  pub union_file : E → E → E

-- What stands at a path of a layer over a base: what the layer has, if it has something; but where
-- both have a directory, `UnionFile` joins the base's and the layer's.
abbrev pub merged : {F I E : Type 0} → Afero F I E → Option E → Option E → Option E
merged a none o = o
merged a (some e) none = some e
merged a (some e) (some b) =
    some (if a.is_dir e then if a.is_dir b then a.union_file b e else e else e)

-- What the packages document: an overlay stands over its base, a read-only file system reads as what
-- it covers, and `IOFS` opens the valid paths.
pub record Documented {F I E : Type 0} (a : Afero F I E) : Type 0 where
  pub overlay :
      (base layer : F) (name : Text)
      → a.look (a.copy_on_write base layer) name ≡ merged a (a.look layer name) (a.look base name)
  pub reads : (f : F) (name : Text) → a.look (a.read_only f) name ≡ a.look f name
  pub opens :
      (f : F) (name : Text)
      → a.open_path (a.new_iofs f) name ≡ (if a.valid_path name then a.look f name else none)
  pub wraps : (i : I) (name : Text) → a.look (a.from_iofs i) name ≡ a.open_path i name

-- `strings.Trim(name, "/")`
abbrev pub trim_slashes : Text → Text
trim_slashes = trim_both (λ c. c == b'/')
