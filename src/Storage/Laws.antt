-- ===== src/Storage/Laws.antt =====
-- A save replaces the file whole or leaves it alone.
use ephemwork.Prelude.{
  ◌≡◌, refl, sym, [], ◌∷◌, ◌++◌, false, ◌≢◌, ◌⊎◌, inl, inr, true, false, some, arith, ok,
  Option-cases,
}
use ephemwork.Text.{Text, codes, same}
use ephemwork.Text.Laws.{same_iff, same_refl}
use ephemwork.Storage.{
  FilePath, suffix, file_name, same_path, with_extension, Disk, Weather, replace_file, Codec,
  RoundTrips, save_json, load_json,
}

pub same_path_refl : (p : FilePath) → same_path p p ≡ true
unfolding same_path
same_path_refl p = ground (arith, same_refl p.dir, same_refl (file_name p))

same-append : (s t u : Text) → same (s ++ t) (s ++ u) ≡ same t u
unfolding same
same-append [] t u = refl
same-append (c ∷ s) t u = ground (arith, same-append s t u)

same-suffix : (e f : Text) → e ≢ f → same (suffix e) (suffix f) ≡ false
unfolding same
same-suffix [] [] h = absurd (h refl)
same-suffix [] (d ∷ f) h = refl
same-suffix (c ∷ e) [] h = refl
same-suffix (c ∷ e) (d ∷ f) h = ground (arith, h, same_iff (c ∷ e) (d ∷ f))

module _ (w : Weather) (path tmp : FilePath) (contents : Text) (d : Disk) where
  -- The outcomes of a replacement: the file is new and all is well, or it is as it was.
  pub replace_file_cases :
      same_path tmp path ≡ false
      → (((replace_file w path tmp contents d).1 ≡ ok tt)
          × ((replace_file w path tmp contents d).0 path ≡ some contents))
        ⊎ (((replace_file w path tmp contents d).1 ≢ ok tt)
            × ((replace_file w path tmp contents d).0 path ≡ d path))
  unfolding replace_file
  replace_file_cases h = ground (arith, same_path_refl path, same_path_refl tmp)

  -- No other file is touched.
  pub replace_file_frame :
      (q : FilePath)
      → same_path tmp q ≡ false
      → same_path path q ≡ false
      → (replace_file w path tmp contents d).0 q ≡ d q
  unfolding replace_file
  replace_file_frame q h k = ground arith

-- The temporary file is another one than the file, whose extension is no "json.tmp".
pub tmp_ne : (p : FilePath) (e : Text) → p.extension ≢ e → same_path (with_extension p e) p ≡ false
unfolding same_path
tmp_ne p e h = ground (
  arith,
  same-append p.stem (suffix e) (suffix p.extension),
  same-suffix e p.extension (λ x. h (sym x)),
)

module _ {ℓ} {A : Type ℓ} (c : Codec A) (w : Weather) (path : FilePath) (a : A) (d : Disk) where
  -- What is saved with success is what is loaded.
  pub load-save :
      (default : A)
      → RoundTrips c
      → path.extension ≢ codes "json.tmp"
      → (save_json c w path a d).1 ≡ ok tt
      → load_json c false default path (save_json c w path a d).0 ≡ ok a
  unfolding save_json load_json
  load-save default r h e = elim (Option-cases (c.encode a)) [
    | inl failed ↦ absurd (ground arith)
    | inr (json, encoded) ↦
        let (decoded, solid) = r a json encoded in
        ground (
          arith,
          decoded,
          replace_file_cases w path (with_extension path (codes "json.tmp")) json d
              (tmp_ne path (codes "json.tmp") h),
        )
  ]

  -- A save that fails changes nothing of the file.
  pub save_failed :
      path.extension ≢ codes "json.tmp"
      → (save_json c w path a d).1 ≢ ok tt
      → (save_json c w path a d).0 path ≡ d path
  unfolding save_json
  save_failed h e = elim (Option-cases (c.encode a)) [
    | inl failed ↦ ground arith
    | inr (json, encoded) ↦ ground (
      arith,
      replace_file_cases w path (with_extension path (codes "json.tmp")) json d
          (tmp_ne path (codes "json.tmp") h),
    )
  ]
