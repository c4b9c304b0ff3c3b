-- ===== src/Archive.antt =====
-- pkg/archive/archive.go: the type of an archive by its name, and a download to a file that is then
-- opened as a zip. Files, hashing and the zip reader are Go's and afero's: a record of calls that
-- pass the disk's state on.
pub mod Clean
mod Tests
use swim.Prelude.{
  ℕ, Option, none, some, ◌++◌, ◌||◌, Text, text, text_eq, ◌==◌, has_suffix, Result, ok, err,
  if◌then◌else◌,
}
use swim.Prelude.Actions.{Action, ◌>>=◌, return, run, handle, wrap}
use swim.Prelude.Int.{ℤ, exceeds}
use swim.Config.Decimal.{decimal_ℤ}

unfoldable pub filetype_from_name : Text → Text
filetype_from_name filename =
    if has_suffix filename (text ".zip")
    then text ".zip"
    else if has_suffix filename (text ".tar.gz") || has_suffix filename (text ".tgz")
    then text ".tar.gz"
    else if has_suffix filename (text ".tar")
    then text ".tar"
    else text ".tar"

-- `copy_limited f r n` copies to `f` what `r` yields, at most `n + 1` bytes of it, and says how
-- many it copied.
pub record Disk (S Fs Reader Handle : Type 0) : Type 0 where
  pub mkdir_parents : Text → S → S
  pub create : Text → Action S Text Handle
  pub copy_limited : Handle → Reader → ℤ → Action S Text ℕ
  pub close_file : Handle → S → S × Option Text
  pub remove : Text → S → S
  pub open_file : Text → Action S Text Handle
  pub hash : Handle → Action S Text Text
  pub file_size : Handle → Action S Text ℕ
  pub zip_reader : Handle → ℕ → Action S Text Fs

module _ {S Fs Reader Handle : Type 0} (disk : Disk S Fs Reader Handle) where
  abbrev pub close : Handle → S → S
  close f s = let (s', _) = disk.close_file f s in s'

  -- The error of a close counts where the copy had none.
  abbrev pub closed : Result Text ℕ → S × Option Text → S × Result Text ℕ
  closed (ok n) (s, none) = (s, ok n)
  closed (ok n) (s, some e) = (s, err e)
  closed (err e) (s, _) = (s, err e)

  abbrev pub copy_and_close : Handle → S × Result Text ℕ → S × Result Text ℕ
  copy_and_close f (s, r) = closed r (disk.close_file f s)

  unfoldable pub download_to_file : Reader → ℤ → Text → Action S Text Unit
  download_to_file r max_size path = do
    _ ← run (disk.mkdir_parents path)
    f ← wrap (λ e. text "create file: " ++ e) (disk.create path)
    handle
        (λ n.
          if exceeds n max_size
          then (λ s.
              (disk.remove path s, err (text "archive exceeds max size " ++ decimal_ℤ max_size)))
          else return tt)
        (λ e s. (disk.remove path s, err (text "write file: " ++ e)))
        (λ s. copy_and_close f (disk.copy_limited f r max_size s))

  abbrev pub prefixed : Result Text Text → Result Text Text
  prefixed (ok digest) = ok (text "sha256:" ++ digest)
  prefixed (err e) = err e

  abbrev pub finish_hash : Handle → S × Result Text Text → S × Result Text Text
  finish_hash f (s, r) = (close f s, prefixed r)

  unfoldable pub hash_file : Text → Action S Text Text
  hash_file path = do f ← disk.open_file path; (λ s. finish_hash f (disk.hash f s))

  -- The cleanup function is the handle that it closes.
  unfoldable pub open_zip_fs : Text → Action S Text (Fs × ℕ × Handle)
  open_zip_fs path = do
    f ← disk.open_file path
    handle
        (λ n.
          handle (λ fs. return (fs, n, f)) (λ e s. (close f s, err (text "open zip: " ++ e)))
            (disk.zip_reader f n))
        (λ e s. (close f s, err e)) (disk.file_size f)

  -- The cleanup function is the handle that it closes and the path that it removes.
  unfoldable pub download_zip_fs : Reader → ℤ → Text → Action S Text (Fs × ℕ × Text × Handle × Text)
  unfolding download_to_file hash_file open_zip_fs
  download_zip_fs r max_size path = do
    _ ← download_to_file r max_size path
    handle
        (λ digest.
          handle (λ (fs, n, f). return (fs, n, digest, f, path))
            (λ e s. (disk.remove path s, err e)) (open_zip_fs path))
        (λ e s. (disk.remove path s, err e)) (hash_file path)

  unfoldable pub cleanup : Handle × Text → S → S
  cleanup (f, path) s = disk.remove path (close f s)

-- Readers of a whole archive in memory: `R` is `io.Reader`, and each may refuse the bytes.
pub record Readers (S Fs R : Type 0) : Type 0 where
  pub read_all : R → Action S Text Text
  pub zip_fs : Text → Result Text Fs
  pub gunzip : Text → Result Text R
  pub tar_fs : R → Fs
  pub bytes_reader : Text → R

module _ {S Fs R : Type 0} (readers : Readers S Fs R) where
  abbrev pub tar_of : Result Text R → Result Text Fs
  tar_of (ok tarball) = ok (readers.tar_fs tarball)
  tar_of (err e) = err e

  unfoldable pub filesystem_of : Text → Text → Result Text Fs
  filesystem_of ft body =
      if ft == text ".zip"
      then readers.zip_fs body
      else if ft == text ".tar.gz"
      then tar_of (readers.gunzip body)
      else if ft == text ".tar"
      then ok (readers.tar_fs (readers.bytes_reader body))
      else err (text "unsupported file type: " ++ ft)

  unfoldable pub filesystem_from_reader : Text → R → Action S Text Fs
  unfolding filesystem_of
  filesystem_from_reader ft r = readers.read_all r >>= (λ body s. (s, filesystem_of ft body))
