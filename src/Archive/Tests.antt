-- ===== src/Archive/Tests.antt =====
-- A download to a disk of two files: the one at the path, if it is there, and nothing else.
use swim.Prelude.{
  ℕ, ◌≡◌, refl, Bool, true, false, Option, none, some, Text, text, Result, ok, err, ℕ_discrete,
}
use swim.Prelude.Int.{pos}
use swim.Archive.{Disk, download_zip_fs}
use swim.Archive.Clean.{Files, download_zip_fs-Absent, Fails}

-- The state says whether the file is there. A reader yields so many bytes.
abbrev disk : Disk Bool ℕ ℕ ℕ
disk = record {
  mkdir_parents = λ path s. s;
  create = λ path s. (true, ok 1);
  copy_limited = λ f r limit s. (s, ok r);
  close_file = λ f s. (s, none);
  remove = λ path s. false;
  open_file = λ path s. (s, ok 1);
  hash = λ f s. (s, ok (text "00"));
  file_size = λ f s. (s, ok 5);
  zip_reader = λ f n s. (s, ok n);
}

abbrev Gone : Bool → Type 0
Gone s = s ≡ false

files : Files disk (text "p.zip") Gone
unfolding Fails
files = record { parents = λ s h. h; not_created = λ s h. tt; removed = λ s. refl }

too_large :
    download_zip_fs disk 9 (pos 5) (text "p.zip") false
    ≡ (false, err (text "archive exceeds max size 5"))
unfolding download_zip_fs swim.Prelude.Actions.and_then swim.Prelude.Actions.wrapped
    swim.Prelude.Actions.caught swim.Config.Decimal.decimal_ℤ
too_large = refl

download_zip_fs-Absent_example : Gone false
download_zip_fs-Absent_example =
    download_zip_fs-Absent disk (text "p.zip") Gone files 9 (pos 5) false false
      (text "archive exceeds max size 5") refl too_large
