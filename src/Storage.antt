-- ===== src/Storage.antt =====
-- Files as the program writes them: a sibling temporary file, then a rename. The operating system
-- is outside the program: which calls fail, and what a failed write leaves, is an argument.
-- (bastion-server/src/registry.rs `save`, bastion-server/src/nginx.rs `write_config`,
-- src/state.rs `save`)
pub mod Laws
use ephemwork.Prelude.{
  ℕ, Bool, true, false, ◌&&◌, Option, none, some, List, [], ◌∷◌, ◌++◌, Result, ok, err,
  if◌then◌else◌, ◌||◌, ◌≡◌, ◌≢◌, is_empty,
}
use ephemwork.Text.{Text, same, trim, codes}

-- `dir/stem.extension`; without an extension, `dir/stem`.
pub record FilePath : Type 0 where
  pub dir : Text
  pub stem : Text
  pub extension : Text

abbrev pub suffix : Text → Text
suffix [] = []
suffix (c ∷ e) = b'.' ∷ c ∷ e

-- The name of the file in its directory: `x.conf.tmp`, wherever its extension is taken to begin.
abbrev pub file_name : FilePath → Text
file_name p = p.stem ++ suffix p.extension

unfoldable pub same_path : FilePath → FilePath → Bool
same_path p q = same p.dir q.dir && same (file_name p) (file_name q)

-- `path.with_extension(e)`
abbrev pub with_extension : FilePath → Text → FilePath
with_extension p e = record p { extension = e }

-- The contents of the files; `none` where there is no file.
abbrev pub Disk : Type 0
Disk = FilePath → Option Text

unfoldable pub write_file : FilePath → Option Text → Disk → Disk
write_file p c d q = if same_path p q then c else d q

pub data IoError : Type 0 where
  creating writing renaming reading serializing parsing : IoError

-- What the operating system does in one save.
pub record Weather : Type 0 where
  pub mkdir_ok : Bool
  pub write_ok : Bool
  -- What a failed write leaves in the temporary file.
  pub torn : Option Text
  pub rename_ok : Bool

rename : FilePath → FilePath → Disk → Disk
unfolding write_file
rename p q d = write_file p none (write_file q (d p) d)

-- Whether the directory of the file is there after `create_dir_all(parent)`, which is only called
-- where the parent is not empty.
unfoldable pub parent_ok : Weather → FilePath → Bool
parent_ok w path = same path.dir [] || w.mkdir_ok

-- `fs::write(&tmp, contents)?; fs::rename(&tmp, path)?`
unfoldable pub replace_file :
    Weather → FilePath → FilePath → Text → Disk → Disk × Result IoError (Unit {0})
unfolding rename write_file
replace_file w path tmp contents d =
    if w.write_ok
    then (if w.rename_ok
        then (rename tmp path (write_file tmp (some contents) d), ok tt)
        else (write_file tmp (some contents) d, err renaming))
    else (write_file tmp w.torn d, err writing)

-- A format of `serde`; `none` is its error.
pub record Codec {ℓ} (A : Type ℓ) : Type ℓ where
  pub encode : A → Option Text
  pub decode : Text → Option A

-- What is written is read back, and is no blank text.
abbrev pub RoundTrips {ℓ} : {A : Type ℓ} → Codec A → Type ℓ
RoundTrips {A} c = (a : A) (t : Text) → c.encode a ≡ some t → (c.decode t ≡ some a) × (trim t ≢ [])

module _ {ℓ} {A : Type ℓ} (c : Codec A) where
  -- `save`, the same text for the registry and for the session state.
  unfoldable pub save_json : Weather → FilePath → A → Disk → Disk × Result IoError (Unit {0})
  unfolding parent_ok
  save_json w path a d =
      if parent_ok w path
      then elim (c.encode a) [
        | none ↦ (d, err serializing)
        | some json ↦ replace_file w path (with_extension path (codes "json.tmp")) json d
      ]
      else (d, err creating)

  -- `load`, where `fails` says that the file is there and cannot be read.
  unfoldable pub load_json : Bool → A → FilePath → Disk → Result IoError A
  load_json fails default path d = if fails then err reading else elim (d path) [
    | none ↦ ok default
    | some s ↦
        if is_empty (trim s)
        then ok default
        else elim (c.decode s) [ none ↦ err parsing | some a ↦ ok a ]
  ]
