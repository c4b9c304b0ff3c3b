-- ===== src/Vfs/Tests.antt =====
-- Roots of file systems, and the objects that they name.
use swim.Prelude.{
  ℕ, suc, ◌≡◌, refl, arith, false, none, some, [], ◌∷◌, ◌++◌, text, text_eq, nat_eq, has, ok, err,
  ℕ_discrete,
}
use swim.Prelude.Actions
use swim.Archive.{Readers}
use swim.Mergefs.Tests.{Files, afero}
use swim.Vfs.Config.{new_overlay}
use swim.Vfs.Sources.{Location, Host, open_raw_filesystem, object_of}
use swim.Vfs.Laws.{Rooted, open_raw-Archived, object_of-path}

abbrev root : Location
root = record {
  scheme = text "https";
  host = text "example.com";
  path = text "/site.zip";
  whole = text "https://example.com/site.zip";
}

abbrev files : Files
files name = some 7

abbrev readers : Readers ℕ Files ℕ
readers = record {
  read_all = λ r s. (s, ok (text "PK"));
  zip_fs = λ body. ok files;
  gunzip = λ body. err (text "gzip: invalid header");
  tar_fs = λ r name. none;
  bytes_reader = λ body. 0;
}

-- The state counts the bodies that are closed.
abbrev host : Host ℕ Files ℕ Unit Unit
host = record {
  parse_url = λ s. ok root;
  readers = readers;
  stat = λ path s. (s, ok false);
  open_file = λ path s. (s, ok 0);
  new_request = λ u. ok tt;
  do_request = λ u h s. (s, ok (record { status_code = 200; status = text "200 OK"; body = 0 }));
  close_body = λ r s. suc s;
  getenv = λ key. [];
  s3_client = λ o. ok tt;
  get_object = λ c bucket key s. (s, ok 0);
  decode_base64 = λ s. ok s;
  gcs_client = λ auth endpoint s. (s, ok tt);
  read_object = λ c bucket key s. (s, ok 0);
  close_client = λ c s. s;
}

site : open_raw_filesystem afero host new_overlay 0 ≡ (1, ok files)
unfolding open_raw_filesystem Actions.and_then text_eq ℕ_discrete
    swim.Archive.filesystem_from_reader swim.Archive.filetype_from_name
site = refl

open_raw-Archived_example : Rooted afero host new_overlay (new_overlay.root) files
open_raw-Archived_example = open_raw-Archived afero host new_overlay 0 1 files site

plain : has b'/' (text "bucket") ≡ false
unfolding ℕ_discrete
plain = refl

two_objects :
    (object_of afero host [] (b'/' ∷ (text "bucket" ++ (b'/' ∷ text "a/b.zip")))
      ≡ (text "bucket", text "a/b.zip"))
    × (object_of afero host (text "named") (b'/' ∷ text "a/b.zip") ≡ (text "named", text "a/b.zip"))
two_objects =
    object_of-path afero host (text "bucket") (text "named") (text "a/b.zip") plain
      (λ e. ground arith)
